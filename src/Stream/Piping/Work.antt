-- ===== src/Stream/Piping/Work.antt =====
-- src/module/node/stream/stream.cpp: how many tasks a pipeline has left.
use zane.Base.{
  ℕ, zero, suc, ◌+◌, ◌≡◌, sym, ap, ◌∙◌, List, [], ◌∷◌, ◌==◌, ==_iff, ltb, if◌then◌else◌, append_nil,
  Bool-cases, inl, inr, length, arith,
}
use zane.Stream.{Signal, eof}
use zane.Stream.Piping.{Stage, PipeTask, from_list, heard}
use zane.Stream.Piping.Content.{
  froms, remaining, remaining-append, remaining-after_task, content, after_task, content-heard,
  content-from_list, no_froms,
}

module _ {A : Type 0} (stages : List (Stage A)) where
  -- The chunks and ends left in the source, and those that the first m streams are still to be heard of.
  abbrev pub work : ℕ → List (PipeTask A) → ℕ
  work zero q = length (remaining q)
  work (suc k) q = work k q + length (content stages k q)

  pub work-heard :
      (m j : ℕ) (x : Signal A) (q : List (PipeTask A))
      → work m (heard j x ∷ q)
        ≡ work m (after_task stages (heard j x) q) + (if ltb j m then 1 else 0)
  work-heard zero j x q = let e = ap length (remaining-after_task stages j x q) in ground arith
  work-heard (suc k) j x q =
      let ih = work-heard k j x q in
      let (here, apart) = content-heard stages j k x q in
      elim (Bool-cases (j == k)) [
        | inl e ↦
            let l = ap length (here ((==_iff j k).0 e)) in let i = (==_iff j k).0 e in ground arith
        | inr e ↦ let l = ap length (apart (λ h. ground arith)) in ground arith
      ]

  pub work-from_list :
      (m : ℕ) (xs : List A) (q : List (PipeTask A))
      → froms q ≡ 0
      → work m (from_list xs ∷ q) ≡ suc (work m (after_task stages (from_list xs) q))
  work-from_list zero [] q h =
      ap (λ l. suc (length l))
        (sym (remaining-append q (heard 0 eof ∷ []) ∙ append_nil (remaining q)))
  work-from_list zero (x ∷ xs) q h = simp (remaining-append, append_nil, no_froms q h)
  work-from_list (suc k) [] q h =
      omega (arith, work-from_list k [] q h, ap length (content-from_list stages k [] q h))
  work-from_list (suc k) (x ∷ xs) q h =
      omega
        (arith, work-from_list k (x ∷ xs) q h, ap length (content-from_list stages k (x ∷ xs) q h))

-- ===== src/Stream/Runs.antt =====
-- src/module/node/stream/stream.cpp: operators at work, and the theorems at concrete inputs.
use zane.Base.{
  ℕ, ◌+◌, ◌≡◌, Bool, true, false, Option, some, none, List, [], ◌∷◌, ◌++◌, ◌==◌, ltb, if◌then◌else◌,
  arith,
}
use zane.Base.Int.{pos}
use zane.Stream.{
  chunk, eof, chunks, receive_all, filter_data, filter_end, drop_data, drop_end, take_data,
  take_end, some_data, some_end, every_data, every_end, find_data, find_end, reduce_data,
  reduce_end,
}
use zane.Stream.Outputs.{sent, open_with}
use zane.Stream.Windows.{windows-receive_all}
use zane.Stream.Promises.{Settled, fresh, promises-receive_all}

-- True for the numbers above 1, and an exception at 0.
abbrev test : ℕ → Option Bool
test n = if n == 0 then none else some (ltb 1 n)

abbrev sum : ℕ → ℕ → Option ℕ
sum a b = some (a + b)

abbrev three : List ℕ
three = 0 ∷ 1 ∷ 2 ∷ []

windows-receive_all_example :
    ((v : ℕ) × (receive_all
          (drop_data (pos 1))
          drop_end
          (chunks three ++ (eof ∷ []))
          (open_with 0 [])
        ≡ sent v (chunks (1 ∷ 2 ∷ []) ++ (eof ∷ []))))
    × ((v : ℕ × Bool) × (receive_all
            (take_data (pos 1))
            take_end
            (chunks three ++ (eof ∷ []))
            (open_with (0, false) [])
          ≡ sent v (chunks (0 ∷ []) ++ (eof ∷ []))))
    × (receive_all (filter_data test) filter_end (chunks three ++ (eof ∷ [])) (open_with tt [])
        ≡ sent tt (chunk 2 ∷ eof ∷ []))
windows-receive_all_example = windows-receive_all (pos 1) test three (omega arith)

promises-receive_all_example :
    Settled
      (receive_all (some_data test) some_end (chunks three ++ (eof ∷ [])) (fresh Bool false))
      (true ∷ [])
    × Settled
        (receive_all (every_data test) every_end (chunks three ++ (eof ∷ [])) (fresh Bool false))
        (false ∷ [])
    × Settled
        (receive_all
          (find_data test)
          find_end
          (chunks three ++ (eof ∷ []))
          (fresh (Option ℕ) false))
        (some 2 ∷ [])
    × Settled
        (receive_all
          (reduce_data sum)
          reduce_end
          (chunks three ++ (eof ∷ []))
          (fresh (Option ℕ) none))
        (some 3 ∷ [])
promises-receive_all_example = promises-receive_all test sum none three

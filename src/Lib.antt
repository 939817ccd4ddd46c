-- ===== src/Lib.antt =====
-- Zane is a JavaScript runtime in C++ on V8: native modules whose methods receive V8 values and
-- keep or transform state in C++. The development models what these methods compute; V8's own
-- work (conversions of values, memory for an ArrayBuffer, calls of JavaScript functions) is a
-- parameter or stays outside.
--
-- The parts and their files:
-- - Base has Boolean tests, lists, sums, signed numbers, bits and byte strings that the parts share.
-- - Buffer models src/module/node/buffer/buffer.cpp. A method is a function from the bytes of the
--   view and its arguments to an Outcome: a result, a thrown error, or undefined behaviour.
--   Buffer/Fixed has the accessors of 1, 2 and 4 bytes, Buffer/Wide those of a chosen number of
--   bytes and of BigInts, Buffer/Hex and Buffer/Base64 the encodings, Buffer/Convert from,
--   toString, write and byteLength, Buffer/Fill alloc and fill, Buffer/Copy concat and copy,
--   Buffer/Slice slice, Buffer/Compare the comparisons, Buffer/Search indexOf, lastIndexOf and
--   includes, Buffer/Swap the swaps, Buffer/Validate isAscii and isUtf8,
--   Buffer/Make from, toJSON, isBuffer, atob and btoa. A length or an offset is a size_t, taken
--   modulo 2 ^ 64. A string is its UTF-8 bytes, and a number is an integer of the int64_t range.
--   The accessors of floats and doubles are not modelled: they are the conversions
--   of IEEE 754.
-- - Path models the POSIX functions of src/module/node/path/path.cpp over the texts of their
--   arguments: Path has normalize, join and resolve, Path/Parts dirname, basename, extname, parse
--   and format. relative and toNamespacedPath are stubs there, and the functions of the host call
--   std::filesystem: they are not modelled.
-- - Timer models src/module/timer.cpp: the static members of the class are a record, its methods
--   functions from a state to a state. A callback is a parameter that says which timer calls it
--   makes and whether it throws; std::sort is a parameter, since it fixes no order of timers of the
--   same expiry; the steady clock is the moment that each call receives.
-- - Events models the methods of EventEmitter in src/module/node/events/events.cpp, on an emitter
--   and its calls in the TaskQueue: Events/Table is the object `_events`, Events has on, once, their
--   prepending forms and emit, Events/Remove removal and the call of a listener, Events/Queries what
--   the methods tell, Events/Iterator the iterator of events.on, whose promises are numbered in the
--   order in which they are made. What an object's prototype has under a name is a parameter, and so is what a
--   listener does; a number of listeners is an int32_t. A program that replaces a method of the
--   emitter, or its table, is not modelled.
-- - Pool models src/thread_pool.hpp, src/task_queue.hpp and the event loop in Run of src/main.cpp. A
--   step is what a thread does between two points where it gives a mutex back, so an interleaving is
--   a sequence of steps: Pool has those of the workers and of the two queues, Pool/Loop those of the
--   main thread, one for each read of its checks. JavaScript code is a list of what it gives to the
--   queues; a task of the pool is the list of what it enqueues for the main thread. A wait on a
--   condition variable is a step that a worker cannot take. The other threads that builtin modules
--   start are not modelled: hasActiveWork is a flag that the main thread sets.
-- - Server models src/module/builtin/server: Server has the methods of a Response, Server/Handler the
--   handler of a request with the end of the promise that `fetch` returns, Server/Active the servers
--   and their count, Server/Request the pathname. What the program does with a Response is a list of
--   calls of its methods; the connection is the list of what was sent on it. The TCP server and the
--   HTTP parser are libraries and are not modelled. A finished JSON text is an argument of res.json.
-- - Stream models src/module/node/stream/stream.cpp. Stream has operators of Readable: the listeners of
--   'data' and 'end' that readableFilter, readableDrop, readableTake, readableSome, readableEvery,
--   readableFind and readableReduce put on a stream, and the variables that they share. A stream is
--   there the list of its events in the order in which the TaskQueue calls their listeners.
--   Stream/Internal is the state that a stream keeps (StreamInternal, src/module/node/stream/stream.hpp)
--   with the methods of Readable, Writable, Transform and PassThrough: a function of the program that a
--   method calls is a function on the state, and what goes to `emit` is a list. Stream/Piping has
--   Readable.from and pipe: the streams of a pipeline and their tasks in the TaskQueue. An emitter of
--   'error' has a listener.
-- - Util models src/module/node/util/util.cpp: Util/Format has format, over what V8 makes of each
--   argument, Util/Inspect inspect, over a tree of values, and Util/Promises promisify and callbackify,
--   over the calls that the wrapped function makes.
-- - Console models src/module/console.cpp: the indentation, the counts and the timers, with what is
--   written to stdout and to stderr; Console/Reports has assert and trace. clear is not modelled.
-- - AdaptiveIo models src/module/adaptive_io.hpp: apply, with the moment of the call as an argument,
--   and flushIfNeeded as the list of the files that are flushed.
-- - Process models createEnvObject, loadDotEnv and hrtime of src/module/node/process/process.cpp; the
--   environment, the bytes of .env and the clock are arguments.
--
-- Buffer.Outcome, for errors and undefined behaviour, is shared. Events has its own TaskQueue of calls
-- of listeners, in the order of Pool's; the event loop's call of tick is a parameter of Pool/Loop. The
-- other modules that call the operating system are not modelled.
--
-- The loops of fill run on fuel, one unit for each byte of the window; each round copies a byte at
-- least, so that is enough, as their theorems show. The loop of console.dir has one unit for each byte
-- of the text and one more; each round passes a newline of it, which is enough, as its theorem
-- shows. The other loops are structural recursion.
pub mod Base
pub mod Buffer
pub mod Path
pub mod Timer
pub mod Util
pub mod Console
pub mod AdaptiveIo
pub mod Process
pub mod Events
pub mod Pool
pub mod Server
pub mod Stream

-- ===== src/Net/Buffer.antt =====
-- `Buffer` of src/net/buffer.cpp: bytes with a reader and a writer index.
-- A `size_t` is a number with its wrap-around written out. An exception is `refused`, and a copy that
-- leaves the storage is `out_of_bounds`.
pub mod Contents
pub mod Steps
pub mod Queue
pub mod ReadFd
pub mod Runs
pub mod Tests
use nexus_rpc.Common.{ℕ, ◌+◌, ◌-◌, ◌%◌, ◌^◌, min, max, if◌then◌else◌, ltb, leb, ◌==◌}
use nexus_rpc.Common.{Option, none, some, Bytes, ◌++◌, length, take, drop, replicate}
use nexus_rpc.Common.Outcome.{Outcome, done, refused, out_of_bounds, ◌>>=◌}

abbrev pub cheap_prepend : ℕ
cheap_prepend = 8

-- Subtraction of `size_t`.
abbrev pub sub_size : ℕ → ℕ → ℕ
sub_size a b = (a + 2 ^ 64 - b) % 2 ^ 64

abbrev pub size_max : ℕ
size_max = 2 ^ 64 - 1

pub record Buffer : Type 0 where
  pub buffer : Bytes
  pub reader_index : ℕ
  pub writer_index : ℕ

unfoldable pub new_buffer : ℕ → Buffer
new_buffer initial_size = record {
  buffer = replicate (max initial_size (cheap_prepend + 1)) 0;
  reader_index = cheap_prepend;
  writer_index = cheap_prepend;
}

abbrev pub readable_bytes : Buffer → ℕ
readable_bytes b = sub_size b.writer_index b.reader_index

abbrev pub writable_bytes : Buffer → ℕ
writable_bytes b = sub_size (length b.buffer) b.writer_index

abbrev pub prependable_bytes : Buffer → ℕ
prependable_bytes b = b.reader_index

-- The `n` bytes from `peek()` on.
abbrev pub peek : Buffer → ℕ → Bytes
peek b n = take n (drop b.reader_index b.buffer)

unfoldable pub retrieve_all : Buffer → Buffer
retrieve_all b = record b { reader_index = cheap_prepend; writer_index = cheap_prepend }

unfoldable pub retrieve : Buffer → ℕ → Buffer
retrieve b n =
    if ltb n (readable_bytes b)
    then record b { reader_index = (b.reader_index + n) % 2 ^ 64 }
    else retrieve_all b

unfoldable pub retrieve_as_string : Buffer → ℕ → Bytes × Buffer
retrieve_as_string b n =
    let actual_length = min n (readable_bytes b) in (peek b actual_length, retrieve b actual_length)

unfoldable pub retrieve_all_as_string : Buffer → Bytes × Buffer
retrieve_all_as_string b = retrieve_as_string b (readable_bytes b)

-- `memcpy` or `memmove` of `data_bytes` to the index `i` of the storage.
unfoldable pub copy_to : Bytes → ℕ → Bytes → Outcome Bytes
copy_to storage i data_bytes =
    if ltb (length storage) (i + length data_bytes)
    then out_of_bounds
    else done (take i storage ++ (data_bytes ++ drop (i + length data_bytes) storage))

-- `resize` of a vector.
unfoldable pub resize : Bytes → ℕ → Bytes
resize storage n = take n storage ++ replicate (n - length storage) 0

unfoldable pub make_space : Buffer → ℕ → Outcome Buffer
make_space b n =
    let readable = readable_bytes b in
    let moved = (do
      storage ← copy_to b.buffer cheap_prepend (peek b readable)
      done (record {
        buffer = storage;
        reader_index = cheap_prepend;
        writer_index = (cheap_prepend + readable) % 2 ^ 64;
      })) in
    if ltb (sub_size size_max b.writer_index) n
    then refused
    else if leb n (sub_size ((writable_bytes b + prependable_bytes b) % 2 ^ 64) cheap_prepend)
    then moved
    else done (record b { buffer = resize b.buffer ((b.writer_index + n) % 2 ^ 64) })

unfoldable pub ensure_writable_bytes : Buffer → ℕ → Outcome Buffer
ensure_writable_bytes b n = if ltb (writable_bytes b) n then make_space b n else done b

unfoldable pub has_written : Buffer → ℕ → Buffer
has_written b n =
    if ltb (writable_bytes b) n
    then b
    else record b { writer_index = (b.writer_index + n) % 2 ^ 64 }

-- The overload with a pointer that is not null.
unfoldable pub append : Buffer → Bytes → Outcome Buffer
append b data_bytes =
    let written = (do
      b' ← ensure_writable_bytes b (length data_bytes)
      storage ← copy_to b'.buffer b'.writer_index data_bytes
      done (has_written (record b' { buffer = storage }) (length data_bytes))) in
    if length data_bytes == 0 then done b else written

abbrev pub extra_size : ℕ
extra_size = 65536

-- What `readv` answers: an error number, or the bytes that it has put into the vectors.
pub data Received : Type 0 where
  failed : ℕ → Received
  received : Bytes → Received

-- The room that `readFd` gives to `readv`.
abbrev pub read_capacity : Buffer → ℕ
read_capacity b =
    let writable = writable_bytes b in
    if ltb writable extra_size then writable + extra_size else writable

-- `readFd` when `readv` has filled the storage: the bytes in `extra_buffer` are appended.
unfoldable pub take_received : Buffer → Bytes → Bytes → Outcome (Buffer × Option ℕ × ℕ)
take_received b bytes storage =
    let b' = record b { buffer = storage } in
    let grown =
      append (record b' { writer_index = length storage }) (drop (writable_bytes b) bytes) in
    if leb (length bytes) (writable_bytes b)
    then done (
      record b' { writer_index = (b.writer_index + length bytes) % 2 ^ 64 },
      some (length bytes),
      0,
    )
    else (grown >>= λ b''. done (b'', some (length bytes), 0))

-- The bytes that `readv` answers with are those that it writes to the vectors, in order; more than
-- their room would be out of bounds. The result is the buffer, the returned value (`none` for a
-- negative one) and `*saved_errno`.
unfoldable pub read_fd : Buffer → Received → Outcome (Buffer × Option ℕ × ℕ)
read_fd b (failed errno) = done (b, none, errno)
read_fd b (received bytes) =
    if ltb (read_capacity b) (length bytes)
    then out_of_bounds
    else (copy_to b.buffer b.writer_index (take (writable_bytes b) bytes) >>= take_received b bytes)

-- ===== src/Net/Buffer/Runs.antt =====
-- Any sequence of calls of `append` and `retrieveAsString`, against a queue of bytes.
use nexus_rpc.Common.{ℕ, ◌+◌, ◌-◌, ◌^◌, ◌≤◌, ◌<◌, ◌≡◌, refl, sym, ap, ◌∙◌, arith, min}
use nexus_rpc.Common.{Bytes, List, [], ◌∷◌, ◌++◌, length, take, drop}
use nexus_rpc.Common.{drop_all}
use nexus_rpc.Common.{Bool-cases, inl, inr, ltb}
use nexus_rpc.Common.Outcome.{Outcome, done, ◌>>=◌}
use nexus_rpc.Net.Buffer.{Buffer, readable_bytes}
use nexus_rpc.Net.Buffer.{append, retrieve, retrieve_all}
use nexus_rpc.Net.Buffer.{retrieve_as_string}
use nexus_rpc.Net.Buffer.Contents.{IsValid, contents, Holds-readable}
use nexus_rpc.Net.Buffer.Contents.{IsValid-Holds}
use nexus_rpc.Common.{take-take}
use nexus_rpc.Net.Buffer.Queue.{append-Appended, retrieve-drop}

module _ (b : Buffer) (n : ℕ) (v : IsValid b) where
  readable_here : readable_bytes b ≡ length (contents b)
  readable_here = Holds-readable (IsValid-Holds b v)

  -- `retrieveAsString` returns the first `n` bytes, or all if there are fewer, and takes them away.
  pub retrieve_as_string-take :
      let (s, b') = retrieve_as_string b n in
      (s ≡ take n (contents b)) × (contents b' ≡ drop n (contents b)) × IsValid b'
  unfolding retrieve_as_string
  retrieve_as_string-take =
      let (valid, left) = retrieve-drop b (min n (readable_bytes b)) v in
      let size : readable_bytes b ≡ b.writer_index - b.reader_index = omega (arith, v) in
      (
        ap (λ k. take (min n k) (drop b.reader_index b.buffer)) size
            ∙ sym (take-take n (b.writer_index - b.reader_index) (drop b.reader_index b.buffer)),
        left ∙ drop_least,
        valid,
      )
    where
      drop_least : drop (min n (readable_bytes b)) (contents b) ≡ drop n (contents b)
      drop_least = elim (Bool-cases (ltb n (readable_bytes b))) [
        | inl part ↦ ap (λ k. drop k (contents b)) (ground arith)
        | inr all ↦
            drop_all _ (contents b) (ground (arith, readable_here))
            ∙ sym (drop_all n (contents b) (ground (arith, readable_here)))
      ]

  retrieve_back : (retrieve_as_string b n).1.writer_index ≤ b.writer_index
  unfolding retrieve_as_string retrieve retrieve_all
  retrieve_back = ground (arith, v)

pub data Op : Type 0 where
  put : Bytes → Op
  get : ℕ → Op

-- The strings that the calls return, and the buffer after them.
pub run : Buffer → List Op → Outcome (List Bytes × Buffer)
run b [] = done ([], b)
run b (put data_bytes ∷ ops) = append b data_bytes >>= λ b'. run b' ops
run b (get n ∷ ops) =
    let (s, b') = retrieve_as_string b n in run b' ops >>= λ (ss, b''). done (s ∷ ss, b'')

-- The same calls on a queue.
abbrev pub queue_run : Bytes → List Op → List Bytes × Bytes
queue_run q [] = ([], q)
queue_run q (put data_bytes ∷ ops) = queue_run (q ++ data_bytes) ops
queue_run q (get n ∷ ops) = let (ss, q') = queue_run (drop n q) ops in (take n q ∷ ss, q')

abbrev pub put_total : List Op → ℕ
put_total [] = 0
put_total (put data_bytes ∷ ops) = length data_bytes + put_total ops
put_total (get n ∷ ops) = put_total ops

-- From a buffer that keeps the invariant, any calls that append fewer bytes than the indices have
-- room for below `2 ^ 64` succeed, return the strings that a queue of bytes returns, and leave what
-- the queue holds, with the invariant.
pub run_refines :
    (b : Buffer) (ops : List Op)
    → IsValid b
    → b.writer_index + put_total ops < 2 ^ 64
    → (b' : Buffer) × (run b ops ≡ done ((queue_run (contents b) ops).0, b'))
      × (contents b' ≡ (queue_run (contents b) ops).1)
      × IsValid b'
unfolding run
run_refines b [] v fits = (b, refl, refl, v)
run_refines b (put data_bytes ∷ ops) v fits =
    let (b', made, a) = append-Appended b v data_bytes (omega arith) in
    let (b'', ran, held, valid) = run_refines b' ops a.valid (omega (arith, a.advanced)) in
    (
      b'',
      rw made (ran ∙ ap (λ q. done ((queue_run q ops).0, b'')) a.queued),
      held ∙ ap (λ q. (queue_run q ops).1) a.queued,
      valid,
    )
run_refines b (get n ∷ ops) v fits =
    let (s, b') = retrieve_as_string b n in
    let (taken, left, still) = retrieve_as_string-take b n v in
    let (b'', ran, held, valid) = run_refines b' ops still (omega (arith, retrieve_back b n v)) in
    (b'', rw (ran, taken, left), held ∙ ap (λ q. (queue_run q ops).1) left, valid)

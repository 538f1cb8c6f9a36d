-- ===== src/Net/Buffer/Tests.antt =====
-- Runs of `Buffer` on small inputs, and its theorems at them.
use nexus_rpc.Common.{◌≡◌, arith, List, [], ◌∷◌, some}
use nexus_rpc.Common.Outcome.{done}
use nexus_rpc.Net.Buffer.{
  Buffer, new_buffer, append, retrieve, retrieve_as_string, read_fd, received,
}
use nexus_rpc.Net.Buffer.Contents.{IsValid, contents}
use nexus_rpc.Net.Buffer.Queue.{new_buffer-IsValid, Appended, append-Appended, retrieve-drop}
use nexus_rpc.Net.Buffer.ReadFd.{read_fd-received}
use nexus_rpc.Net.Buffer.Runs.{Op, put, get, run, run_refines, retrieve_as_string-take}

-- Three bytes, behind two that were retrieved, with one byte of room.
abbrev shifted : Buffer
shifted = record {
  buffer = 0 ∷ 0 ∷ 0 ∷ 0 ∷ 0 ∷ 0 ∷ 0 ∷ 0 ∷ 1 ∷ 2 ∷ 3 ∷ 4 ∷ 5 ∷ 0 ∷ [];
  reader_index = 10;
  writer_index = 13;
}

shifted-IsValid : IsValid shifted
shifted-IsValid = omega arith

new_buffer-IsValid_example : IsValid (new_buffer 4) × (contents (new_buffer 4) ≡ [])
new_buffer-IsValid_example = new_buffer-IsValid 4 (omega arith)

append-Appended_example :
    (b' : Buffer) × (append shifted (6 ∷ 7 ∷ []) ≡ done b') × Appended shifted (6 ∷ 7 ∷ []) b'
append-Appended_example = append-Appended shifted shifted-IsValid (6 ∷ 7 ∷ []) (omega arith)

retrieve-drop_example : IsValid (retrieve shifted 2) × (contents (retrieve shifted 2) ≡ 5 ∷ [])
retrieve-drop_example = retrieve-drop shifted 2 shifted-IsValid

retrieve_as_string-take_example :
    let (s, b') = retrieve_as_string shifted 9 in
    (s ≡ 3 ∷ 4 ∷ 5 ∷ []) × (contents b' ≡ []) × IsValid b'
retrieve_as_string-take_example = retrieve_as_string-take shifted 9 shifted-IsValid

read_fd-received_example :
    (b' : Buffer) × (read_fd shifted (received (6 ∷ 7 ∷ 8 ∷ [])) ≡ done (b', some 3, 0))
    × IsValid b'
    × (contents b' ≡ 3 ∷ 4 ∷ 5 ∷ 6 ∷ 7 ∷ 8 ∷ [])
read_fd-received_example =
    read_fd-received shifted (6 ∷ 7 ∷ 8 ∷ []) shifted-IsValid (omega arith) (omega arith)

abbrev calls : List Op
calls = get 1 ∷ put (6 ∷ 7 ∷ []) ∷ get 3 ∷ put (8 ∷ []) ∷ []

run_refines_example :
    (b' : Buffer) × (run shifted calls ≡ done ((3 ∷ []) ∷ (4 ∷ 5 ∷ 6 ∷ []) ∷ [], b'))
    × (contents b' ≡ 7 ∷ 8 ∷ [])
    × IsValid b'
run_refines_example = run_refines shifted calls shifted-IsValid (omega arith)

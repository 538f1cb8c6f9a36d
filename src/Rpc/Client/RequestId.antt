-- ===== src/Rpc/Client/RequestId.antt =====
-- The request identifiers of one connection.
use nexus_rpc.Common.{ℕ, zero, suc, ◌+◌, ◌-◌, ◌%◌, ◌^◌, ◌<◌, ◌≡◌, ◌≢◌, arith}
use nexus_rpc.Rpc.Client.{next_request_id}

-- `next_request_id_` after `n` calls.
pub after_calls : ℕ → ℕ → ℕ
after_calls zero next = next
after_calls (suc n) next = (next_request_id (after_calls n next)).1

one_call :
    (next : ℕ) → 0 < next → next < 2 ^ 64 → (next_request_id next).1 ≡ next % (2 ^ 64 - 1) + 1
unfolding next_request_id
one_call next positive fits = ground arith

closed_form :
    (n next : ℕ) → 0 < next → next < 2 ^ 64 → after_calls n next ≡ (next - 1 + n) % (2 ^ 64 - 1) + 1
unfolding after_calls
closed_form zero next positive fits = omega arith
closed_form (suc n) next positive fits =
    let before = closed_form n next positive fits in
    omega (arith, before, one_call (after_calls n next) (omega arith) (omega arith))

-- From a counter that is not 0, no identifier is 0, and those of two calls differ unless at least
-- `2 ^ 64 - 1` calls lie between them.
pub request_ids-differ :
    (next n m : ℕ)
    → 0 < next
    → next < 2 ^ 64
    → n < m
    → m < n + (2 ^ 64 - 1)
    → (0 < (next_request_id (after_calls n next)).0)
      × ((next_request_id (after_calls n next)).0 ≢ (next_request_id (after_calls m next)).0)
unfolding next_request_id
request_ids-differ next n m positive fits before near =
    let here = closed_form n next positive fits in
    let there = closed_form m next positive fits in (omega arith, λ e. omega arith)

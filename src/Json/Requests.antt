-- ===== src/Json/Requests.antt =====
-- Which JSON texts `parseRequest` accepts as requests.
use nexus_rpc.Common.{◌≡◌, ◌↔◌, refl, sym, ap, ◌∙◌, arith, true, Bool-cases, inl, inr}
use nexus_rpc.Common.{Bytes, Option, none, some}
use nexus_rpc.Common.ByteMap.{bytes_eq_iff}
use nexus_rpc.Json.Words.{jsonrpc_key, id_key, method_key, params_key, version_text}
use nexus_rpc.Json.Value.{
  JsonValue, null, bool, integer, double, string, object, array, no_members, member,
}
use nexus_rpc.Json.Value.{Doubles, find_member, set_member, get, is_object}
use nexus_rpc.Json.Print.{serialize}
use nexus_rpc.Json.Message.{
  JsonRpcRequest, Validated, accepted, refused, validate, validate_object, with_method,
}
use nexus_rpc.Json.Message.{
  read_id, read_method, read_params, names_version, parse_request, validate_parsed,
}
use nexus_rpc.Json.RoundTrip.Printable.{IsPrintable}
use nexus_rpc.Json.RoundTrip.Values.{parse-serialize}

-- Strings, numbers and null.
abbrev pub IsId : JsonValue → Type 0
IsId null = Unit
IsId (string s) = Unit
IsId (integer i) = Unit
IsId (double d) = Unit
IsId (bool b) = ⊥
IsId (object ms) = ⊥
IsId (array es) = ⊥

abbrev pub IsParams : JsonValue → Type 0
IsParams (object ms) = Unit
IsParams (array es) = Unit
IsParams _ = ⊥

-- A member that may be absent, which counts as null, and is subject to `P` otherwise.
abbrev pub IsOptional : (JsonValue → Type 0) → Option JsonValue → JsonValue → Type 0
IsOptional P none v = v ≡ null
IsOptional P (some w) v = (v ≡ w) × P w

-- The object `root` is the request `r` of JSON-RPC 2.0.
pub record IsRequest (root : JsonValue) (r : JsonRpcRequest) : Type 0 where
  pub version : get jsonrpc_key root ≡ some (string version_text)
  pub method : get method_key root ≡ some (string r.method)
  pub id : IsOptional IsId (get id_key root) r.id
  pub params : IsOptional IsParams (get params_key root) r.params

names_version_iff :
    (o : Option JsonValue) → (names_version o ≡ true) ↔ (o ≡ some (string version_text))
names_version_iff none = (λ h. cc, λ h. cc)
names_version_iff (some (string s)) = (
  λ h. ap (λ t. some (string t)) ((bytes_eq_iff s version_text).0 h),
  λ h. (bytes_eq_iff s version_text).1 cc,
)
names_version_iff (some null) = (λ h. cc, λ h. cc)
names_version_iff (some (bool b)) = (λ h. cc, λ h. cc)
names_version_iff (some (integer i)) = (λ h. cc, λ h. cc)
names_version_iff (some (double d)) = (λ h. cc, λ h. cc)
names_version_iff (some (object ms)) = (λ h. cc, λ h. cc)
names_version_iff (some (array es)) = (λ h. cc, λ h. cc)

read_method_iff :
    (o : Option JsonValue) (m : Bytes) → (read_method o ≡ some m) ↔ (o ≡ some (string m))
read_method_iff none m = (λ h. cc, λ h. cc)
read_method_iff (some (string s)) m = (λ h. cc, λ h. cc)
read_method_iff (some null) m = (λ h. cc, λ h. cc)
read_method_iff (some (bool b)) m = (λ h. cc, λ h. cc)
read_method_iff (some (integer i)) m = (λ h. cc, λ h. cc)
read_method_iff (some (double d)) m = (λ h. cc, λ h. cc)
read_method_iff (some (object ms)) m = (λ h. cc, λ h. cc)
read_method_iff (some (array es)) m = (λ h. cc, λ h. cc)

read_id_iff : (o : Option JsonValue) (i : JsonValue) → (read_id o ≡ some i) ↔ IsOptional IsId o i
read_id_iff none i = (λ h. cc, λ h. cc)
read_id_iff (some null) i = (λ h. (cc, tt), λ h. cc)
read_id_iff (some (string s)) i = (λ h. (cc, tt), λ h. cc)
read_id_iff (some (bool b)) i = (λ h. absurd cc, λ h. absurd h.1)
read_id_iff (some (integer n)) i = (λ h. (cc, tt), λ h. cc)
read_id_iff (some (double d)) i = (λ h. (cc, tt), λ h. cc)
read_id_iff (some (object ms)) i = (λ h. absurd cc, λ h. absurd h.1)
read_id_iff (some (array es)) i = (λ h. absurd cc, λ h. absurd h.1)

read_params_iff :
    (o : Option JsonValue) (v : JsonValue) → (read_params o ≡ some v) ↔ IsOptional IsParams o v
read_params_iff none v = (λ h. cc, λ h. cc)
read_params_iff (some (object ms)) v = (λ h. (cc, tt), λ h. cc)
read_params_iff (some (array es)) v = (λ h. (cc, tt), λ h. cc)
read_params_iff (some null) v = (λ h. absurd cc, λ h. absurd h.1)
read_params_iff (some (string s)) v = (λ h. absurd cc, λ h. absurd h.1)
read_params_iff (some (bool b)) v = (λ h. absurd cc, λ h. absurd h.1)
read_params_iff (some (integer n)) v = (λ h. absurd cc, λ h. absurd h.1)
read_params_iff (some (double d)) v = (λ h. absurd cc, λ h. absurd h.1)

request_or : JsonRpcRequest → Validated → JsonRpcRequest
request_or r (accepted q) = q
request_or r (refused message) = r

accepted-injective : (q r : JsonRpcRequest) → accepted q ≡ accepted r → q ≡ r
unfolding request_or
accepted-injective q r h = ap (request_or r) h

with_method_iff :
    (m : Bytes) (i p : Option JsonValue) (r : JsonRpcRequest)
    → (with_method m i p ≡ accepted r) ↔ ((m ≡ r.method) × (i ≡ some r.id) × (p ≡ some r.params))
with_method_iff m none p r = (λ h. absurd cc, λ h. absurd (ground (arith, h)))
with_method_iff m (some i) none r = (λ h. absurd cc, λ h. absurd (ground (arith, h)))
with_method_iff m (some i) (some p) r = (
  λ h.
      let e = accepted-injective (record { method = m; id = i; params = p }) r h in
      (ap (λ q. q.method) e, ap (λ q. some q.id) e, ap (λ q. some q.params) e),
  λ h.
      let same_id : i ≡ r.id = cc in
      let same_params : p ≡ r.params = cc in rw (h.0, same_id, same_params),
)

validate_object_iff :
    (root : JsonValue) (m : Option Bytes) (r : JsonRpcRequest)
    → (validate_object root m ≡ accepted r) ↔ (
        (m ≡ some r.method)
        × IsOptional IsId (get id_key root) r.id
        × IsOptional IsParams (get params_key root) r.params)
validate_object_iff root none r = (λ h. absurd cc, λ h. absurd (ground (arith, h.0)))
validate_object_iff root (some m) r =
    let whole =
      with_method_iff m (read_id (get id_key root)) (read_params (get params_key root)) r in
    let ids = read_id_iff (get id_key root) r.id in
    let params = read_params_iff (get params_key root) r.params in
    (
      λ h. (ap some (whole.0 h).0, ids.0 (whole.0 h).1, params.0 (whole.0 h).2),
      λ h. whole.1 (cc, ids.1 h.1, params.1 h.2),
    )

no_members_of :
    (root : JsonValue) (k : Bytes) (v : JsonValue) → get k root ≡ some v → is_object root ≡ true
unfolding get
no_members_of null k v h = cc
no_members_of (bool b) k v h = cc
no_members_of (integer i) k v h = cc
no_members_of (double d) k v h = cc
no_members_of (string s) k v h = cc
no_members_of (object ms) k v h = refl
no_members_of (array es) k v h = cc

validated :
    (root : JsonValue)
    → is_object root ≡ true
    → names_version (get jsonrpc_key root) ≡ true
    → validate root ≡ validate_object root (read_method (get method_key root))
unfolding validate
validated root o n = rw (o, n)

accepts_version :
    (root : JsonValue) (r : JsonRpcRequest)
    → validate root ≡ accepted r
    → (is_object root ≡ true) × (names_version (get jsonrpc_key root) ≡ true)
unfolding validate
accepts_version root r h = elim (Bool-cases (is_object root)) [
  | inr o ↦ absurd (ground (arith, o, h))
  | inl o ↦ elim (Bool-cases (names_version (get jsonrpc_key root))) [
    | inr n ↦ absurd (ground (arith, o, n, h))
    | inl n ↦ (o, n)
  ]
]

-- `validate` accepts exactly the objects that JSON-RPC 2.0 calls requests, as the request that they
-- are: the version is "2.0", the method a string, an id that is there a string, a number or null, and
-- parameters that are there an object or an array.
pub validate_iff :
    (root : JsonValue) (r : JsonRpcRequest) → (validate root ≡ accepted r) ↔ IsRequest root r
validate_iff root r =
    let version = names_version_iff (get jsonrpc_key root) in
    let parts = validate_object_iff root (read_method (get method_key root)) r in
    let method = read_method_iff (get method_key root) r.method in
    (
      λ h.
          let (o, n) = accepts_version root r h in
          let found = parts.0 (sym (validated root o n) ∙ h) in
          record {
            version = version.0 n;
            method = method.0 found.0;
            id = found.1;
            params = found.2;
          },
      λ q.
          let o = no_members_of root jsonrpc_key (string version_text) q.version in
          validated root o (version.1 q.version) ∙ parts.1 (method.1 q.method, q.id, q.params),
    )

-- The object of a request, as a client writes it.
abbrev pub request_value : JsonRpcRequest → JsonValue
request_value r = object (
    member jsonrpc_key (string version_text) (
      member id_key r.id
        (member method_key (string r.method) (member params_key r.params no_members))))

-- `parseRequest` reads back a request that is printed with its version, id, method and parameters, if
-- the id is a string, a number or null, the parameters are an object or an array, and both are printed
-- without loss.
pub parse_request-serialize :
    (lib : Doubles) (r : JsonRpcRequest)
    → IsId r.id
    → IsParams r.params
    → IsPrintable lib r.id
    → IsPrintable lib r.params
    → parse_request lib (serialize lib (request_value r)) ≡ accepted r
unfolding parse_request validate_parsed get find_member set_member
parse_request-serialize lib r i p pi pp =
    let printable : IsPrintable lib (request_value r) =
      (refl, tt, (refl, pi, (refl, tt, (refl, pp, tt)))) in
    let request : IsRequest (request_value r) r = record {
      version = refl;
      method = refl;
      id = (refl, i);
      params = (refl, p);
    } in
    ap (validate_parsed (serialize lib (request_value r)))
      (parse-serialize lib (request_value r) printable)
    ∙ (validate_iff (request_value r) r).1 request

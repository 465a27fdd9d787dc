-- ===== src/Network/Sync/Bodies.antt =====
-- crates/network/src/sync.rs: the requests for bodies, and the check of the downloaded chain.
use velochain.Prelude.{
  ℕ, zero, suc, ◌*◌, ◌%◌, Bool, true, false, ◌&&◌, Option, none, some, List, [], ◌∷◌, ◌++◌, not,
  ◌==◌, if◌then◌else◌, length, take, contains, add64, u64_mod, saturating_sub,
}
use velochain.Map.{Map, insert, keep, keys, update_all}
use velochain.Map.Ordered.{last_key}
use velochain.Primitives.Bytes.{drop}
use velochain.Network.Sync.{
  synced, verifying, SyncTarget, Request, SyncedHeader, SyncResult, bodies_matched, range_verified,
  sync_error, no_peers, broken_chain, SyncEngine, Sent, is_empty, is_downloading_bodies, or_zero,
}

unfoldable pub missing_bodies : Map SyncedHeader → List ℕ
missing_bodies [] = []
missing_bodies ((n, h) ∷ m) =
    if h.body_downloaded then missing_bodies m else h.hash ∷ missing_bodies m

-- `slice::chunks`, on as many rounds as there are entries; it panics on a size of zero.
unfoldable pub chunks_on : ℕ → ℕ → List ℕ → List (List ℕ)
chunks_on zero size xs = []
chunks_on (suc rounds) size [] = []
chunks_on (suc rounds) size (x ∷ xs) =
    take size (x ∷ xs) ∷ chunks_on rounds size (drop size (x ∷ xs))

unfoldable pub chunks : ℕ → List ℕ → Option (List (List ℕ))
chunks size xs = if size == 0 then none else some (chunks_on (length xs) size xs)

abbrev pub peer_of : Option SyncTarget → Option ℕ
peer_of none = none
peer_of (some t) = some t.peer_id

-- `unwrap_or_default` on the peer: the empty name is the word 0.
abbrev pub body_request : SyncEngine → List ℕ → Request (List ℕ)
body_request e hashes = record {
  asked = hashes;
  peer_id = or_zero (peer_of e.target);
  created_tick = e.current_tick;
  retries = 0;
}

abbrev pub with_body_request : SyncEngine → List ℕ → SyncEngine
with_body_request e hashes = record e {
  next_request_id = add64 e.next_request_id 1;
  body_requests = insert e.next_request_id (body_request e hashes) e.body_requests;
}

unfoldable pub request_bodies : SyncEngine → List (List ℕ) → SyncEngine × List (Sent (List ℕ))
request_bodies e [] = (e, [])
request_bodies e (hashes ∷ rest) =
    let (e', sent) = request_bodies (with_body_request e hashes) rest in
    (e', record { id = e.next_request_id; asked = hashes; peer = peer_of e.target } ∷ sent)

abbrev pub free_body_requests : SyncEngine → ℕ
free_body_requests e = saturating_sub e.config.max_body_requests (length e.body_requests)

abbrev pub pending_bodies : SyncEngine → List ℕ
pending_bodies e =
    take ((free_body_requests e * e.config.bodies_per_request) % u64_mod) (missing_bodies e.headers)

-- `none` is the panic of `chunks`.
unfoldable pub poll_body_requests : SyncEngine → Option (SyncEngine × List (Sent (List ℕ)))
poll_body_requests e =
    if not (is_downloading_bodies e.state)
    then some (e, [])
    else elim (chunks e.config.bodies_per_request (pending_bodies e)) [
      | none ↦ none
      | some cs ↦ some (request_bodies e cs)
    ]

-- The first header with the hash whose body is missing.
unfoldable pub mark_body : ℕ → Map SyncedHeader → Map SyncedHeader × Bool
mark_body hash [] = ([], false)
mark_body hash ((n, h) ∷ m) =
    let rest = mark_body hash m in
    if (h.hash == hash) && not h.body_downloaded
    then ((n, record h { body_downloaded = true }) ∷ m, true)
    else ((n, h) ∷ rest.0, rest.1)

-- The headers and the number of matches.
unfoldable pub mark_bodies : List ℕ → Map SyncedHeader → Map SyncedHeader × ℕ
mark_bodies [] m = (m, 0)
mark_bodies (hash ∷ hashes) m =
    let marked = mark_body hash m in
    let rest = mark_bodies hashes marked.0 in (rest.0, (if marked.1 then suc rest.1 else rest.1))

unfoldable pub are_all_in : List ℕ → List ℕ → Bool
are_all_in set [] = true
are_all_in set (h ∷ hs) = contains h set && are_all_in set hs

unfoldable pub are_all_downloaded : Map SyncedHeader → Bool
are_all_downloaded [] = true
are_all_downloaded ((n, h) ∷ m) = h.body_downloaded && are_all_downloaded m

abbrev pub matched : SyncEngine → List ℕ → SyncEngine
matched e hashes = record e {
  headers = (mark_bodies hashes e.headers).0;
  body_requests = keep (λ id r. not (are_all_in hashes r.asked)) e.body_requests;
}

abbrev pub after_bodies : SyncEngine → SyncEngine
after_bodies e =
    if are_all_downloaded e.headers && is_empty e.body_requests && not (is_empty e.headers)
    then record e { state = verifying }
    else e

unfoldable pub on_bodies_received : SyncEngine → List ℕ → SyncEngine × SyncResult
on_bodies_received e hashes =
    (after_bodies (matched e hashes), bodies_matched (mark_bodies hashes e.headers).1)

-- The number of the first header that does not follow the one before it.
unfoldable pub broken_at : Map SyncedHeader → Option ℕ
broken_at [] = none
broken_at ((m, a) ∷ []) = none
broken_at ((m, a) ∷ (n, b) ∷ rest) =
    let further = broken_at ((n, b) ∷ rest) in
    if (n == add64 m 1) && (b.parent_hash == a.hash) then further else some n

abbrev pub verified_header : SyncedHeader → SyncedHeader
verified_header h = record h { verified = true }

abbrev pub mark_verified : SyncEngine → SyncEngine
mark_verified e = record e {
  headers = update_all verified_header e.headers;
  import_ready = e.import_ready ++ keys e.headers;
  state = synced;
}

abbrev pub verify_from : SyncEngine → ℕ → SyncEngine × SyncResult
verify_from e first = elim (broken_at e.headers) [
  | some n ↦ (e, sync_error (broken_chain n))
  | none ↦ (mark_verified e, range_verified first (or_zero (last_key e.headers)))
]

abbrev pub first_key : Map SyncedHeader → Option ℕ
first_key [] = none
first_key ((n, h) ∷ m) = some n

unfoldable pub verify_chain : SyncEngine → SyncEngine × SyncResult
verify_chain e = elim (first_key e.headers) [
  | none ↦ (e, sync_error no_peers)
  | some first ↦ verify_from e first
]

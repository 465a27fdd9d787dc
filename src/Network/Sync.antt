-- ===== src/Network/Sync.antt =====
-- crates/network/src/sync.rs: the engine that downloads headers, then bodies, and hands verified
-- ranges on for import. Hashes and peer ids are words.
pub mod Bodies
pub mod Timeouts
mod Coverage
mod Requests
mod Limits
mod Verified
mod Stalls
mod Tests
use velochain.Prelude.{
  ℕ, zero, suc, ◌+◌, ◌-◌, ◌*◌, ◌%◌, ◌^◌, Bool, true, false, ◌&&◌, ◌||◌, Option, none, some, List,
  [], ◌∷◌, ◌++◌, ltb, leb, not, ◌==◌, if◌then◌else◌, length, take, contains, retain, add64, sub64,
  u64_mod, saturating_sub, min, max,
}
use velochain.Map.{Map, lookup, insert, remove, keep, keys, contains_key, update_all}
use velochain.Map.Ordered.{insert_ordered, last_key}

pub data SyncState : Type 0 where
  synced downloading_headers downloading_bodies verifying stalled : SyncState

pub record SyncTarget : Type 0 where
  pub best_block : ℕ
  pub best_hash : ℕ
  pub peer_id : ℕ

-- `HeaderRequest` and `BodyRequest`, which differ in what they ask for.
pub record Request (A : Type 0) : Type 0 where
  pub asked : A
  pub peer_id : ℕ
  pub created_tick : ℕ
  pub retries : ℕ

pub record HeaderRange : Type 0 where
  pub start : ℕ
  pub count : ℕ

pub record SyncedHeader : Type 0 where
  pub number : ℕ
  pub hash : ℕ
  pub parent_hash : ℕ
  pub body_downloaded : Bool
  pub verified : Bool

pub data SyncError : Type 0 where
  no_peers : SyncError
  broken_chain timeout max_retries_exceeded : ℕ → SyncError

pub data SyncResult : Type 0 where
  headers_queued bodies_matched : ℕ → SyncResult
  range_verified : ℕ → ℕ → SyncResult
  sync_error : SyncError → SyncResult

pub record SyncConfig : Type 0 where
  pub headers_per_request : ℕ
  pub bodies_per_request : ℕ
  pub request_timeout_ticks : ℕ
  pub max_retries : ℕ
  pub max_header_requests : ℕ
  pub max_body_requests : ℕ

pub record SyncEngine : Type 0 where
  pub state : SyncState
  pub local_head : ℕ
  pub target : Option SyncTarget
  pub headers : Map SyncedHeader
  pub header_requests : Map (Request HeaderRange)
  pub body_requests : Map (Request (List ℕ))
  pub next_request_id : ℕ
  pub current_tick : ℕ
  pub config : SyncConfig
  pub import_ready : List ℕ
  pub banned_peers : List ℕ

unfoldable pub new : ℕ → SyncConfig → SyncEngine
new local_head config = record {
  state = synced;
  local_head = local_head;
  target = none;
  headers = [];
  header_requests = [];
  body_requests = [];
  next_request_id = 1;
  current_tick = 0;
  config = config;
  import_ready = [];
  banned_peers = [];
}

unfoldable pub drain_import_ready : SyncEngine → SyncEngine × List ℕ
drain_import_ready e = (record e { import_ready = [] }, e.import_ready)

unfoldable pub is_peer_banned : SyncEngine → ℕ → Bool
is_peer_banned e peer = contains peer e.banned_peers

unfoldable pub ban_peer : SyncEngine → ℕ → SyncEngine
ban_peer e peer =
    if contains peer e.banned_peers then e else record e { banned_peers = peer ∷ e.banned_peers }

abbrev pub is_synced : SyncState → Bool
is_synced synced = true
is_synced _ = false

abbrev pub is_downloading_headers : SyncState → Bool
is_downloading_headers downloading_headers = true
is_downloading_headers _ = false

abbrev pub is_downloading_bodies : SyncState → Bool
is_downloading_bodies downloading_bodies = true
is_downloading_bodies _ = false

abbrev pub is_better : ℕ → Option SyncTarget → Bool
is_better best none = true
is_better best (some t) = ltb t.best_block best

unfoldable pub on_peer_status : SyncEngine → ℕ → ℕ → ℕ → SyncEngine
on_peer_status e peer best hash =
    if leb best e.local_head || not (is_better best e.target) then e else record e {
      target = some (record { best_block = best; best_hash = hash; peer_id = peer });
      state = if is_synced e.state then downloading_headers else e.state;
    }

-- `target`, once its block is reached.
abbrev pub is_reached : ℕ → Option SyncTarget → Bool
is_reached head none = false
is_reached head (some t) = leb t.best_block head

unfoldable pub update_local_head : SyncEngine → ℕ → SyncEngine
update_local_head e head =
    let above : SyncEngine = record e {
      local_head = head;
      headers = keep (λ n _. ltb head n) e.headers;
    } in
    if is_reached head e.target then record above { state = synced; target = none } else above

-- One past the last block of any pending request, or 0.
unfoldable pub highest_requested : Map (Request HeaderRange) → ℕ
highest_requested [] = 0
highest_requested ((id, r) ∷ rs) = max (add64 r.asked.start r.asked.count) (highest_requested rs)

abbrev pub or_zero : Option ℕ → ℕ
or_zero none = 0
or_zero (some n) = n

abbrev pub start_of : SyncEngine → ℕ
start_of e =
    max (max (highest_requested e.header_requests) (or_zero (last_key e.headers)))
      (add64 e.local_head 1)

-- A request as it is handed to the caller.
pub record Sent (A : Type 0) : Type 0 where
  pub id : ℕ
  pub asked : A
  pub peer : Option ℕ

abbrev pub fresh : {A : Type 0} → SyncEngine → SyncTarget → A → Request A
fresh e t asked = record {
  asked = asked;
  peer_id = t.peer_id;
  created_tick = e.current_tick;
  retries = 0;
}

abbrev pub count_from : SyncEngine → SyncTarget → ℕ → ℕ
count_from e t start = min e.config.headers_per_request (add64 (t.best_block - start) 1)

abbrev pub with_header_request : SyncEngine → SyncTarget → ℕ → SyncEngine
with_header_request e t start = record e {
  next_request_id = add64 e.next_request_id 1;
  header_requests =
      insert e.next_request_id (fresh e t (record { start = start; count = count_from e t start }))
        e.header_requests;
}

abbrev pub sent_range : SyncEngine → SyncTarget → ℕ → Sent HeaderRange
sent_range e t start = record {
  id = e.next_request_id;
  asked = record { start = start; count = count_from e t start };
  peer = some t.peer_id;
}

-- The rounds of `for _ in 0..max_new`.
unfoldable pub request_headers :
    ℕ → SyncEngine → SyncTarget → ℕ → SyncEngine × List (Sent HeaderRange)
request_headers zero e t start = (e, [])
request_headers (suc rounds) e t start =
    let rest =
      request_headers rounds (with_header_request e t start) t
        (add64 start (count_from e t start)) in
    if ltb t.best_block start then (e, []) else (rest.0, sent_range e t start ∷ rest.1)

unfoldable pub poll_header_requests : SyncEngine → SyncEngine × List (Sent HeaderRange)
poll_header_requests e = if not (is_downloading_headers e.state) then (e, []) else elim e.target [
  | none ↦ (e, [])
  | some t ↦
      request_headers (saturating_sub e.config.max_header_requests (length e.header_requests)) e t
        (start_of e)
]

abbrev pub new_header : ℕ → ℕ → ℕ → SyncedHeader
new_header number hash parent_hash = record {
  number = number;
  hash = hash;
  parent_hash = parent_hash;
  body_downloaded = false;
  verified = false;
}

unfoldable pub store_headers : List (ℕ × ℕ × ℕ) → Map SyncedHeader → Map SyncedHeader
store_headers [] m = m
store_headers ((number, hash, parent) ∷ hs) m =
    store_headers hs
      (if contains_key number m then m else insert_ordered number (new_header number hash parent) m)

abbrev pub is_empty : {A : Type 0} → List A → Bool
is_empty [] = true
is_empty (x ∷ xs) = false

-- With all headers up to the target and no request left the bodies are next.
abbrev pub after_headers : SyncEngine → SyncEngine
after_headers e =
    if is_reached (or_zero (last_key e.headers)) e.target && is_empty e.header_requests
    then record e { state = downloading_bodies }
    else e

abbrev pub received : SyncEngine → ℕ → List (ℕ × ℕ × ℕ) → SyncEngine
received e first hs = record e {
  header_requests = keep (λ id r. not (r.asked.start == first)) e.header_requests;
  headers = store_headers hs e.headers;
}

unfoldable pub on_headers_received : SyncEngine → List (ℕ × ℕ × ℕ) → SyncEngine × SyncResult
on_headers_received e [] = (e, headers_queued 0)
on_headers_received e ((number, hash, parent) ∷ hs) =
    let all = (number, hash, parent) ∷ hs in
    (after_headers (received e number all), headers_queued (length all))

-- ===== src/Network/Sync/Coverage.antt =====
-- The bodies that are asked for.
use velochain.Prelude.{
  ℕ, zero, suc, ◌≤◌, ◌<◌, ◌≡◌, refl, ap, ◌∙◌, true, false, some, List, [], ◌∷◌, ◌++◌, ◌==◌, length,
  take, All, arith, length-take, Bool-cases, inl, inr, subst, sym, ◌-◌, ◌*◌, ◌%◌, u64_mod,
}
use velochain.Map.{Map}
use velochain.Primitives.Bytes.{drop}
use velochain.Network.Sync.{
  SyncEngine, SyncedHeader, Sent, is_downloading_bodies, downloading_bodies,
}
use velochain.Network.Sync.Bodies.{
  chunks_on, chunks, request_bodies, with_body_request, pending_bodies, poll_body_requests,
  missing_bodies, free_body_requests,
}

abbrev pub concat : List (List ℕ) → List ℕ
concat [] = []
concat (xs ∷ xss) = xs ++ concat xss

-- What the requests ask for.
abbrev pub asked_of : List (Sent (List ℕ)) → List (List ℕ)
asked_of [] = []
asked_of (s ∷ ss) = s.asked ∷ asked_of ss

take-drop : (n : ℕ) (xs : List ℕ) → take n xs ++ drop n xs ≡ xs
take-drop zero xs = refl
take-drop (suc n) [] = refl
take-drop (suc n) (x ∷ xs) = ap (λ ys. x ∷ ys) (take-drop n xs)

length-drop-less : (n : ℕ) (x : ℕ) (xs : List ℕ) → 0 < n → length (drop n (x ∷ xs)) ≤ length xs
length-drop-less zero x xs h = absurd (omega (arith, h))
length-drop-less (suc zero) x xs h = omega arith
length-drop-less (suc (suc n)) x [] h = omega arith
length-drop-less (suc (suc n)) x (y ∷ ys) h =
    omega (arith, length-drop-less (suc n) y ys (omega arith))

-- As many rounds as there are entries are enough.
concat-chunks_on :
    (rounds size : ℕ) (xs : List ℕ)
    → 0 < size
    → length xs ≤ rounds
    → concat (chunks_on rounds size xs) ≡ xs
unfolding chunks_on
concat-chunks_on zero size [] some_size enough = refl
concat-chunks_on zero size (x ∷ xs) some_size enough = absurd (omega (arith, enough))
concat-chunks_on (suc rounds) size [] some_size enough = refl
concat-chunks_on (suc rounds) size (x ∷ xs) some_size enough =
    ap (λ ys. take size (x ∷ xs) ++ ys)
      (concat-chunks_on rounds size (drop size (x ∷ xs)) some_size
        (omega (arith, enough, length-drop-less size x xs some_size)))
    ∙ take-drop size (x ∷ xs)

chunks_on-small :
    (rounds size : ℕ) (xs : List ℕ) → All (λ ys. length ys ≤ size) (chunks_on rounds size xs)
unfolding chunks_on
chunks_on-small zero size xs = tt
chunks_on-small (suc rounds) size [] = tt
chunks_on-small (suc rounds) size (x ∷ xs) =
    (omega (arith, length-take size (x ∷ xs)), chunks_on-small rounds size (drop size (x ∷ xs)))

asked-request_bodies : (e : SyncEngine) (cs : List (List ℕ)) → asked_of (request_bodies e cs).1 ≡ cs
unfolding request_bodies
asked-request_bodies e [] = refl
asked-request_bodies e (c ∷ cs) =
    ap (λ rest. c ∷ rest) (asked-request_bodies (with_body_request e c) cs)

-- The hashes of the first headers without a body, as many as there is room for.
pub data AreFirstMissing : ℕ → Map SyncedHeader → List ℕ → Type 0 where
  no_room : {m : Map SyncedHeader} → AreFirstMissing zero m []
  no_more : {room : ℕ} → AreFirstMissing room [] []
  downloaded :
      {room n : ℕ} {h : SyncedHeader} {m : Map SyncedHeader} {hashes : List ℕ}
      → h.body_downloaded ≡ true
      → AreFirstMissing room m hashes
      → AreFirstMissing room ((n, h) ∷ m) hashes
  missing :
      {room n : ℕ} {h : SyncedHeader} {m : Map SyncedHeader} {hashes : List ℕ}
      → h.body_downloaded ≡ false
      → AreFirstMissing room m hashes
      → AreFirstMissing (suc room) ((n, h) ∷ m) (h.hash ∷ hashes)

take-AreFirstMissing :
    (room : ℕ) (m : Map SyncedHeader) → AreFirstMissing room m (take room (missing_bodies m))
unfolding missing_bodies
take-AreFirstMissing zero m = AreFirstMissing.no_room
take-AreFirstMissing (suc room) [] = AreFirstMissing.no_more
take-AreFirstMissing (suc room) ((n, h) ∷ m) = elim (Bool-cases h.body_downloaded) [
  | inl done ↦
      simp (done, missing_bodies)
        (AreFirstMissing.downloaded done (take-AreFirstMissing (suc room) m))
  | inr lacks ↦
      simp (lacks, missing_bodies) (AreFirstMissing.missing lacks (take-AreFirstMissing room m))
]

-- While bodies are downloaded, a poll with a positive number of bodies per request returns; its
-- requests, none larger than that number, ask together for the hashes of the first headers, in
-- order, that have no body, as many as the free requests hold (their product on 64 bits). A header
-- that a pending request asks for already is not left out.
pub poll_body_requests-Covers :
    (e : SyncEngine)
    → 0 < e.config.bodies_per_request
    → e.state ≡ downloading_bodies
    → (r : SyncEngine × List (Sent (List ℕ))) × (poll_body_requests e ≡ some r)
      × AreFirstMissing
          (((e.config.max_body_requests - length e.body_requests) * e.config.bodies_per_request)
            % u64_mod)
          e.headers
          (concat (asked_of r.1))
      × All (λ hashes. length hashes ≤ e.config.bodies_per_request) (asked_of r.1)
unfolding poll_body_requests chunks
poll_body_requests-Covers e some_size state =
    let size = e.config.bodies_per_request in
    let room = (free_body_requests e * size) % u64_mod in
    let busy : is_downloading_bodies e.state ≡ true = rw state refl in
    let cs = chunks_on (length (pending_bodies e)) size (pending_bodies e) in
    let positive : (size == 0) ≡ false = ground (arith, some_size) in
    let asked = asked-request_bodies e cs in
    let whole : concat cs ≡ pending_bodies e =
      concat-chunks_on (length (pending_bodies e)) size (pending_bodies e) some_size
        (omega arith) in
    let small = chunks_on-small (length (pending_bodies e)) size (pending_bodies e) in
    (
      request_bodies e cs,
      rw (busy, positive, poll_body_requests) refl,
      subst (AreFirstMissing room e.headers) (sym (ap concat asked ∙ whole))
          (take-AreFirstMissing room e.headers),
      rw asked small,
    )

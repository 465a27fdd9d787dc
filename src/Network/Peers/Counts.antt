-- ===== src/Network/Peers/Counts.antt =====
-- The peers of a direction counted, and the peer that is evicted.
use velochain.Prelude.{
  ℕ, ◌≤◌, suc, ◌≡◌, refl, subst, some, [], ◌∷◌, leb, ◌==◌, if◌then◌else◌, arith, inl, inr,
  Bool-cases, Option-cases,
}
use velochain.Map.{Map, lookup, insert, remove, update_all, Unique, Every, Every-head, Every-tail}
use velochain.Network.Peers.{
  max_score, min_score, Direction, PeerInfo, is_same, direction_count, worst, decayed,
}

abbrev pub IsPeer : ℕ → PeerInfo → Type 0
IsPeer k p = (p.peer_id ≡ k) × (min_score ≤ p.score) × (p.score ≤ max_score)

pub direction_count-insert :
    (d : Direction) (k : ℕ) (p : PeerInfo) (m : Map PeerInfo)
    → direction_count d (insert k p m)
      ≤ (if is_same d p.direction then suc (direction_count d m) else direction_count d m)
unfolding direction_count insert
direction_count-insert d k p [] = ground arith
direction_count-insert d k p ((j, q) ∷ m) = ground (arith, direction_count-insert d k p m)

pub direction_count-rewrite :
    (d : Direction) (k : ℕ) (p q : PeerInfo) (m : Map PeerInfo)
    → lookup k m ≡ some p
    → q.direction ≡ p.direction
    → direction_count d (insert k q m) ≡ direction_count d m
unfolding direction_count insert lookup
direction_count-rewrite d k p q [] e same = absurd cc
direction_count-rewrite d k p q ((j, r) ∷ m) e same = elim (Bool-cases (j == k)) [
  | inl here ↦ ground arith
  | inr there ↦ ground (arith, direction_count-rewrite d k p q m)
]

pub direction_count-remove-le :
    (d : Direction) (k : ℕ) (m : Map PeerInfo)
    → direction_count d (remove k m) ≤ direction_count d m
unfolding direction_count remove
direction_count-remove-le d k [] = omega arith
direction_count-remove-le d k ((j, r) ∷ m) = ground (arith, direction_count-remove-le d k m)

pub direction_count-update_all :
    (d : Direction) (amount : ℕ) (m : Map PeerInfo)
    → direction_count d (update_all (decayed amount) m) ≡ direction_count d m
unfolding direction_count update_all
direction_count-update_all d amount [] = refl
direction_count-update_all d amount ((j, r) ∷ m) =
    ground (arith, direction_count-update_all d amount m)

worst_head :
    (k : ℕ) (q : PeerInfo) (m : Map PeerInfo) (p : PeerInfo)
    → q.peer_id ≡ k
    → q ≡ p
    → lookup p.peer_id ((k, q) ∷ m) ≡ some p
unfolding lookup
worst_head k q m p own same =
    subst (λ x. lookup x.peer_id ((k, q) ∷ m) ≡ some x) same (ground arith)

worst_tail :
    (k : ℕ) (q r : PeerInfo) (m : Map PeerInfo) (p : PeerInfo)
    → Unique ((k, q) ∷ m)
    → lookup r.peer_id m ≡ some r
    → r ≡ p
    → lookup p.peer_id ((k, q) ∷ m) ≡ some p
unfolding lookup
worst_tail k q r m p u found same =
    subst (λ x. lookup x.peer_id ((k, q) ∷ m) ≡ some x) same (ground arith)

-- The worst peer is a peer, so that its removal makes room.
pub lookup-worst :
    (m : Map PeerInfo) (p : PeerInfo)
    → Unique m
    → Every IsPeer m
    → worst m ≡ some p
    → lookup p.peer_id m ≡ some p
unfolding worst lookup
lookup-worst [] p u own e = absurd cc
lookup-worst ((k, q) ∷ m) p u own e =
    let head = Every-head IsPeer k q m own in
    let tail = Every-tail IsPeer k q m u own in
    elim (Option-cases (worst m)) [
      | inl alone ↦ ground arith
      | inr (r, f) ↦
          let found : lookup r.peer_id m ≡ some r = lookup-worst m r u.1 tail f in
          elim (Bool-cases (leb q.score r.score)) [
            | inl lower ↦ worst_head k q m p head.0 (ground arith)
            | inr higher ↦ worst_tail k q r m p u found (ground arith)
          ]
    ]

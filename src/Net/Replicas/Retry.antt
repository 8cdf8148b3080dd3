-- ===== src/Net/Replicas/Retry.antt =====
-- When an exchange and its retry bring back a reply.
use mini_dynamo.Base.{
  ℕ, ◌≤◌, ◌≡◌, refl, ap, ◌∙◌, inl, inr, ◌⊎◌, none, some, List, [], ◌∷◌, length, length-append,
  arith, Option-cases,
}
use mini_dynamo.Text.{Str, str_key}
use mini_dynamo.OrdMap.{find, insert, find-insert}
use mini_dynamo.NodeInfo.{NodeInfo}
use mini_dynamo.Net.Pool.{ConnectionPool, conns_of, pop_back, key_of, discard}
use mini_dynamo.Net.Pool.Ledger.{pop_back_cases, checkout_fresh, checkout_reuses}
use mini_dynamo.Net.Replicas.{RoundTrip, Attempt, attempt, exchange_loop, exchange}

length_nil {ℓ} : {A : Type ℓ} (l : List A) → length l ≤ 0 → l ≡ []
length_nil [] h = refl
length_nil (x ∷ l) h = absurd (omega arith)

-- An attempt on a peer with one idle connection at most, whose connector answers.
attempt_cases :
    (round_trip : RoundTrip) (pool : ConnectionPool) (peer : NodeInfo) (request : Str) (a : Attempt)
    (f : ℕ)
    → length (conns_of (find (key_of peer.host peer.port) pool.idle)) ≤ 1
    → a.connected ≡ some f
    → ((fd : ℕ) × (reply : Str) × (round_trip fd request ≡ some reply)
        × ((attempt round_trip pool peer request a).1 ≡ some reply))
      ⊎ (((attempt round_trip pool peer request a).1 ≡ none)
          × (conns_of
                (find (key_of peer.host peer.port) (attempt round_trip pool peer request a).0.idle)
              ≡ []))
unfolding attempt discard
attempt_cases round_trip pool peer request a f few up =
    let key = key_of peer.host peer.port in
    elim (pop_back_cases (conns_of (find key pool.idle))) [
      | inl (nil, empty) ↦
          let fresh = checkout_fresh pool peer.host peer.port a.connected empty in
          elim (Option-cases (round_trip f request)) [
            | inl broken ↦
                inr (ground (arith, fresh, up, broken), ground (arith, fresh, up, broken, nil))
            | inr (reply, answered) ↦ inl (f, reply, answered, ground (arith, fresh, up, answered))
          ]
      | inr (rest, c, whole, last) ↦
          let reused = checkout_reuses pool peer.host peer.port a.connected rest c last in
          elim (Option-cases (round_trip c.fd request)) [
            | inl broken ↦
                let gone : (attempt round_trip pool peer request a).0.idle
                    ≡ insert key rest pool.idle =
                  ground (arith, reused, broken) in
                let nil : rest ≡ [] =
                  length_nil rest
                    (omega (arith, few, ap length whole, length-append rest (c ∷ []))) in
                inr (
                  ground (arith, reused, broken),
                  ap (λ m. conns_of (find key m)) gone
                      ∙ ground
                          (arith, find-insert key key rest pool.idle, str_key.beq_iff key key, nil),
                )
            | inr (reply, answered) ↦ inl (c.fd, reply, answered, ground (arith, reused, answered))
          ]
    ]

attempt_fresh :
    (round_trip : RoundTrip) (pool : ConnectionPool) (peer : NodeInfo) (request : Str) (a : Attempt)
    (f : ℕ) (reply : Str)
    → conns_of (find (key_of peer.host peer.port) pool.idle) ≡ []
    → a.connected ≡ some f
    → round_trip f request ≡ some reply
    → (attempt round_trip pool peer request a).1 ≡ some reply
unfolding attempt pop_back
attempt_fresh round_trip pool peer request a f reply nil up answers =
    let empty = ap pop_back nil in
    ground (arith, checkout_fresh pool peer.host peer.port a.connected empty, up, answers)

-- A request to a peer with one idle connection at most, whose connector answers both times and whose
-- fresh connection has a reply, brings back what one of the connections replied.
pub exchange_answers :
    (round_trip : RoundTrip) (pool : ConnectionPool) (peer : NodeInfo) (request : Str)
    (first second : Attempt) (f f' : ℕ) (reply : Str)
    → length (conns_of (find (key_of peer.host peer.port) pool.idle)) ≤ 1
    → first.connected ≡ some f
    → second.connected ≡ some f'
    → round_trip f' request ≡ some reply
    → (fd : ℕ) × (round_trip fd request
        ≡ some (exchange round_trip pool peer request first second).1)
unfolding exchange exchange_loop
exchange_answers round_trip pool peer request first second f f' reply few up up' answers =
    elim (attempt_cases round_trip pool peer request first f few up) [
      | inl (fd, got, e, at) ↦ (fd, e ∙ ground (arith, at))
      | inr (failed, empty) ↦
          let p = (attempt round_trip pool peer request first).0 in
          let last = attempt_fresh round_trip p peer request second f' reply empty up' answers in
          (f', answers ∙ ground (arith, failed, last))
    ]

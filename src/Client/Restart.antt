-- ===== src/Client/Restart.antt =====
-- An agent that has restarted numbers its observations from 1 again; the service's hello then names
-- a watermark of the time before.
use kube_cost.Prelude.{
  ℕ, ◌+◌, ◌≤◌, ◌<◌, ◌≡◌, refl, not, ◌||◌, some, List, [], ◌∷◌, leb, contains, filter, All, arith,
  ◌∙◌,
}
use kube_cost.Wire.{Observation, ServerHello, hello}
use kube_cost.Buffer.{Buffer, acknowledge}
use kube_cost.Buffer.Order.{IsOrdered}
use kube_cost.Client.{handshake}

filter-none :
    (w n : ℕ) (os : List Observation)
    → n ≤ w + 1
    → All (λ o. o.sequence < n) os
    → filter (λ o. not (leb o.sequence w || contains [] o.sequence)) os ≡ []
filter-none w n [] h a = refl
filter-none w n (o ∷ os) h a = ground (arith, filter-none w n os h a.1)

handshake-entries :
    (h : ServerHello) (b : Buffer) {b' : Buffer}
    → handshake (hello h) b ≡ some b'
    → b'.entries
      ≡ filter
          (λ o. not (leb o.sequence h.accepted_through_sequence || contains [] o.sequence))
          b.entries
unfolding handshake acknowledge
handshake-entries h b e = ground arith

-- If an ordered buffer has not yet assigned a number behind the watermark that the service's hello
-- names, then a handshake that is accepted empties it.
pub handshake_drops :
    (h : ServerHello) (b : Buffer) {b' : Buffer}
    → IsOrdered b
    → b.next ≤ h.accepted_through_sequence + 1
    → handshake (hello h) b ≡ some b'
    → b'.entries ≡ []
handshake_drops h b ordered behind e =
    handshake-entries h b e
    ∙ filter-none h.accepted_through_sequence b.next b.entries behind ordered.below_next

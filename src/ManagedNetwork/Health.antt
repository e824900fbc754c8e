-- ===== src/ManagedNetwork/Health.antt =====
-- Which nodes managed_network.go takes for healthy, and how many a transaction goes to.
use hedera_sdk_go.Prelude.{
  ℕ, ◌+◌, ◌-◌, ◌/◌, ◌*◌, ◌<◌, ◌≤◌, Bool, false, ◌&&◌, ◌||◌, ◌≡◌, refl, ap, ◌∙◌, List, [], ◌∷◌, ◌++◌,
  none, ◌==◌, arith, length, if◌then◌else◌, Bool-cases, inl, inr,
}
use native.Mathlib.Decide.{ℕ_discrete}
use hedera_sdk_go.Prelude.Int.{ℤ, pos}
use hedera_sdk_go.ManagedNetwork.{
  ManagedNetwork, any_of, readmit, readmit_nodes, healthy_at, number_of_nodes,
}

-- Whether a pointer is in a list.
abbrev pub has : ℕ → List ℕ → Bool
has r = any_of (λ q. r == q)

pub has-append : (r : ℕ) (xs ys : List ℕ) → has r (xs ++ ys) ≡ (has r xs || has r ys)
has-append r [] ys = refl
has-append r (x ∷ xs) ys = ground (arith, has-append r xs ys)

abbrev next_healthy : (ℕ → Bool) → ℕ → List ℕ → List ℕ
next_healthy healthy q hs = if has q hs then hs else if healthy q then hs ++ q ∷ [] else hs

has-next_healthy :
    (healthy : ℕ → Bool) (r q : ℕ) (hs : List ℕ)
    → has r (next_healthy healthy q hs) ≡ (has r hs || (r == q && healthy r))
has-next_healthy healthy r q hs = elim (ℕ_discrete r q) [
  | yes e ↦ rw e (ground (arith, has-append q hs (q ∷ [])))
  | no ne ↦ ground (arith, has-append r hs (q ∷ []))
]

has-readmit :
    (healthy : ℕ → Bool) (r : ℕ) (nodes healthy_nodes : List ℕ)
    → has r (readmit healthy nodes healthy_nodes)
      ≡ (has r healthy_nodes || (has r nodes && healthy r))
unfolding readmit
has-readmit healthy r [] hs = ground arith
has-readmit healthy r (q ∷ nodes) hs =
    has-readmit healthy r nodes (next_healthy healthy q hs)
    ∙ ap (λ b. b || (has r nodes && healthy r)) (has-next_healthy healthy r q hs)
    ∙ ground arith

abbrev pub IsDistinct : List ℕ → Type 0
IsDistinct [] = Unit
IsDistinct (r ∷ nodes) = (has r nodes ≡ false) × IsDistinct nodes

-- Without a maximum, a transaction goes to a third of the account ids of the network, rounded up.
pub number_of_nodes-bounds :
    {Key Channel Book : Type 0} (this : ManagedNetwork Key Channel Book)
    → this.max_nodes_per_transaction ≡ none
    → (k : ℕ) × (number_of_nodes this ≡ pos k)
      × (length this.network ≤ 3 * k)
      × (3 * k < length this.network + 3)
unfolding number_of_nodes
number_of_nodes-bounds this e =
    ((length this.network + 3 - 1) / 3, rw e refl, omega arith, omega arith)

IsDistinct-append_last :
    (hs : List ℕ) (q : ℕ) → IsDistinct hs → has q hs ≡ false → IsDistinct (hs ++ q ∷ [])
IsDistinct-append_last [] q _ _ = (refl, tt)
IsDistinct-append_last (x ∷ hs) q (hx, hs_distinct) h = (
  ground (arith, has-append x hs (q ∷ [])),
  IsDistinct-append_last hs q hs_distinct (ground arith),
)

IsDistinct-next_healthy :
    (healthy : ℕ → Bool) (q : ℕ) (hs : List ℕ)
    → IsDistinct hs
    → IsDistinct (next_healthy healthy q hs)
IsDistinct-next_healthy healthy q hs h = elim (Bool-cases (has q hs)) [
  | inl e ↦ rw e h
  | inr e ↦ rw e (elim (Bool-cases (healthy q)) [
    | inl k ↦ rw k (IsDistinct-append_last hs q h e)
    | inr k ↦ rw k h
  ])
]

IsDistinct-readmit :
    (healthy : ℕ → Bool) (nodes hs : List ℕ) → IsDistinct hs → IsDistinct (readmit healthy nodes hs)
unfolding readmit
IsDistinct-readmit healthy [] hs h = h
IsDistinct-readmit healthy (q ∷ nodes) hs h =
    IsDistinct-readmit healthy nodes (next_healthy healthy q hs)
      (IsDistinct-next_healthy healthy q hs h)

-- After `_ReadmitNodes` the list of healthy nodes holds those that it held and each node of the
-- network that is healthy now, and no other; if no node stood in it twice, none does now.
pub has-readmit_nodes :
    {Key Channel Book : Type 0} (now : ℤ) (this : ManagedNetwork Key Channel Book)
    → IsDistinct this.healthy_nodes
    → ((r : ℕ)
        → has r (readmit_nodes now this).healthy_nodes
          ≡ (has r this.healthy_nodes || (has r this.nodes && healthy_at now this.heap r)))
      × IsDistinct (readmit_nodes now this).healthy_nodes
unfolding readmit_nodes
has-readmit_nodes now this h = (
  λ r. has-readmit (healthy_at now this.heap) r this.nodes this.healthy_nodes,
  IsDistinct-readmit (healthy_at now this.heap) this.nodes this.healthy_nodes h,
)

-- ===== src/Network/Backoff.antt =====
-- Which node `_IncreaseBackoff` of network.go takes out of the healthy ones.
use hedera_sdk_go.Prelude.{
  ℕ, suc, ◌+◌, ◌<◌, true, false, not, ◌≡◌, ◌≢◌, refl, ap, ◌∙◌, List, [], ◌∷◌, ◌==◌, arith, length,
  drop, Bool-cases, inl, inr, ◌⊎◌,
}
use hedera_sdk_go.Prelude.Int.{ℤ}
use hedera_sdk_go.Prelude.Outcome.{ok, panic, out_of_range}
use hedera_sdk_go.ManagedNetwork.{keep}
use hedera_sdk_go.ManagedNetwork.Health.{has, IsDistinct}
use hedera_sdk_go.ManagedNetwork.Replace.{remove_at}
use hedera_sdk_go.Network.{Network, index_or_zero, network_increase_backoff}
use native.Mathlib.Decide.{ℕ_discrete}

abbrev pub without : ℕ → List ℕ → List ℕ
without r = keep (λ q. not (r == q))

without-lacks : (r : ℕ) (nodes : List ℕ) → has r nodes ≡ false → without r nodes ≡ nodes
without-lacks r [] h = refl
without-lacks r (q ∷ nodes) h = ground (arith, without-lacks r nodes)

index_or_zero-lacks : (r i : ℕ) (nodes : List ℕ) → has r nodes ≡ false → index_or_zero r i nodes ≡ 0
unfolding index_or_zero
index_or_zero-lacks r i [] h = refl
index_or_zero-lacks r i (q ∷ nodes) h = ground (arith, index_or_zero-lacks r (suc i) nodes)

index_or_zero-has :
    (r i : ℕ) (nodes : List ℕ)
    → has r nodes ≡ true
    → index_or_zero r i nodes ≡ i + index_or_zero r 0 nodes
unfolding index_or_zero
index_or_zero-has r i [] h = cc
index_or_zero-has r i (q ∷ nodes) h = elim (Bool-cases (r == q)) [
  | inl e ↦ rw e (omega arith)
  | inr e ↦ rw e (ground (arith, index_or_zero-has r (suc i) nodes, index_or_zero-has r 1 nodes))
]

index_or_zero-skip :
    (r q : ℕ) (nodes : List ℕ)
    → r ≢ q
    → has r nodes ≡ true
    → index_or_zero r 0 (q ∷ nodes) ≡ suc (index_or_zero r 0 nodes)
unfolding index_or_zero
index_or_zero-skip r q nodes ne h = ground (arith, index_or_zero-has r 1 nodes)

remove_at-has :
    (r : ℕ) (nodes : List ℕ)
    → has r nodes ≡ true
    → IsDistinct nodes
    → remove_at (index_or_zero r 0 nodes) nodes ≡ without r nodes
unfolding index_or_zero
remove_at-has r [] h d = cc
remove_at-has r (q ∷ nodes) h (hq, d) = elim (ℕ_discrete r q) [
  | yes e ↦ ground (arith, without-lacks q nodes hq, without-lacks r nodes)
  | no ne ↦
      let h' : has r nodes ≡ true = ground arith in
      ap (λ i. remove_at i (q ∷ nodes)) (index_or_zero-skip r q nodes ne h')
      ∙ ap (◌∷◌ q) (remove_at-has r nodes h' d)
      ∙ ground arith
]

empty_of_length : (nodes : List ℕ) → length nodes ≡ 0 → nodes ≡ []
empty_of_length [] e = refl
empty_of_length (q ∷ nodes) e = absurd (omega arith)

network_increase_backoff-removes :
    {Key Channel Book : Type 0} (now : ℤ) (r : ℕ) (this : Network Key Channel Book)
    → length this.managed.healthy_nodes ≢ 0
    → (network_increase_backoff now r this).0.managed.healthy_nodes
      ≡ remove_at (index_or_zero r 0 this.managed.healthy_nodes) this.managed.healthy_nodes
unfolding network_increase_backoff
network_increase_backoff-removes now r this ne =
    let e : (length this.managed.healthy_nodes == 0) ≡ false = ground arith in rw e refl

-- A failed node that is among the healthy ones, where no node stands twice, is taken out and the
-- others keep their order. One that is not costs the first healthy node its place; where there is
-- none, the call panics.
pub network_increase_backoff-healthy :
    {Key Channel Book : Type 0} (now : ℤ) (r : ℕ) (this : Network Key Channel Book)
    → IsDistinct this.managed.healthy_nodes
    → ((has r this.managed.healthy_nodes ≡ true)
        × ((network_increase_backoff now r this).1 ≡ ok tt)
        × ((network_increase_backoff now r this).0.managed.healthy_nodes
            ≡ without r this.managed.healthy_nodes))
      ⊎ (((has r this.managed.healthy_nodes ≡ false)
            × (0 < length this.managed.healthy_nodes)
            × ((network_increase_backoff now r this).1 ≡ ok tt)
            × ((network_increase_backoff now r this).0.managed.healthy_nodes
                ≡ drop 1 this.managed.healthy_nodes))
          ⊎ ((this.managed.healthy_nodes ≡ [])
              × ((network_increase_backoff now r this).1 ≡ panic out_of_range)))
unfolding network_increase_backoff
network_increase_backoff-healthy now r this d =
    elim (ℕ_discrete (length this.managed.healthy_nodes) 0) [
      | yes e ↦ inr (inr (empty_of_length this.managed.healthy_nodes e, ground arith))
      | no ne ↦ elim (Bool-cases (has r this.managed.healthy_nodes)) [
        | inl e ↦ inl (
          e,
          ground arith,
          network_increase_backoff-removes now r this ne
              ∙ remove_at-has r this.managed.healthy_nodes e d,
        )
        | inr e ↦ inr (
            inl (
              e,
              omega arith,
              ground arith,
              network_increase_backoff-removes now r this ne
                  ∙ ap (λ i. remove_at i this.managed.healthy_nodes)
                      (index_or_zero-lacks r 0 this.managed.healthy_nodes e),
            ))
      ]
    ]

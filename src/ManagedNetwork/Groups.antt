-- ===== src/ManagedNetwork/Groups.antt =====
-- How managed_network.go groups nodes by their keys and picks the healthy ones.
use hedera_sdk_go.Prelude.{
  ℕ, Bool, true, false, ◌≡◌, refl, ap, ◌∙◌, sym, List, [], ◌∷◌, ◌++◌, none, some, arith,
  if◌then◌else◌, append-nil, append_assoc, Bool-cases, inl, inr,
}
use hedera_sdk_go.Prelude.Int.{ℤ}
use hedera_sdk_go.Prelude.Text.{Bytes, bytes_eq, eq_of_bytes_eq}
use hedera_sdk_go.Node.{Host, Heap}
use hedera_sdk_go.ManagedNetwork.{lookup, insert_into, keep, healthy_at}
use hedera_sdk_go.ManagedNetwork.Replace.{key_at, create_from, create_network_from_nodes}

-- The nodes that stand under a key.
abbrev pub group_of {ℓ} : {A : Type ℓ} → Bytes → List (Bytes × List A) → List A
group_of key network = elim (lookup key network) [ none ↦ [] | some items ↦ items ]

-- The item alone, if its key is the one looked for.
abbrev pub only_if {ℓ} : {A : Type ℓ} → Bool → A → List A
only_if b a = if b then a ∷ [] else []

group_here {ℓ} :
    {A : Type ℓ} (key k : Bytes) (items : List A) (network : List (Bytes × List A))
    → bytes_eq k key ≡ true
    → group_of key ((k, items) ∷ network) ≡ items
group_here key k items network h = rw (group_of, h) refl

group_there {ℓ} :
    {A : Type ℓ} (key k : Bytes) (items : List A) (network : List (Bytes × List A))
    → bytes_eq k key ≡ false
    → group_of key ((k, items) ∷ network) ≡ group_of key network
group_there key k items network h = rw (group_of, h) refl

bytes_eq_other :
    (l k key : Bytes) → bytes_eq l k ≡ false → bytes_eq l key ≡ true → bytes_eq k key ≡ false
bytes_eq_other l k key e h = elim (Bool-cases (bytes_eq k key)) [
  | inr f ↦ f
  | inl f ↦ absurd (cc (e, eq_of_bytes_eq k key f, h))
]

group_of-insert_into {ℓ} :
    {A : Type ℓ} (key k : Bytes) (a : A) (network : List (Bytes × List A))
    → group_of key (insert_into k a network) ≡ group_of key network ++ only_if (bytes_eq k key) a
unfolding insert_into
group_of-insert_into key k a [] = ground arith
group_of-insert_into key k a ((l, items) ∷ network) = elim (Bool-cases (bytes_eq l k)) [
  | inl e ↦ rw e (elim (Bool-cases (bytes_eq l key)) [
    | inl h ↦
        group_here key l (items ++ a ∷ []) network h
        ∙ cc (group_here key l items network h, eq_of_bytes_eq l k e, h)
    | inr h ↦
        group_there key l (items ++ a ∷ []) network h
        ∙ cc (
          group_there key l items network h,
          eq_of_bytes_eq l k e,
          h,
          append-nil (group_of key network),
        )
  ])
  | inr e ↦ rw e (elim (Bool-cases (bytes_eq l key)) [
    | inl h ↦
        rw
          (
            bytes_eq_other l k key e h,
            group_here key l items (insert_into k a network) h,
            group_here key l items network h,
          )
          (sym (append-nil items))
    | inr h ↦
        group_there key l items (insert_into k a network) h
        ∙ group_of-insert_into key k a network
        ∙ ap (λ g. g ++ only_if (bytes_eq k key) a) (sym (group_there key l items network h))
  ])
]

only_if-keep :
    (p : ℕ → Bool) (r : ℕ) (nodes : List ℕ) → only_if (p r) r ++ keep p nodes ≡ keep p (r ∷ nodes)
only_if-keep p r nodes = elim (Bool-cases (p r)) [ inl e ↦ rw e refl | inr e ↦ rw e refl ]

append_if :
    (p : ℕ → Bool) (healthy : List ℕ) (r : ℕ) (nodes : List ℕ)
    → (if p r then healthy ++ r ∷ [] else healthy) ++ keep p nodes ≡ healthy ++ keep p (r ∷ nodes)
append_if p healthy r nodes = elim (Bool-cases (p r)) [
  | inl e ↦ rw e (append_assoc healthy (r ∷ []) (keep p nodes))
  | inr e ↦ rw e refl
]

module _ {Key Channel Book : Type 0} (host : Host Key Channel) where
  create_from-groups :
      (key : Bytes) (now : ℤ) (heap : Heap Key Channel Book) (nodes : List ℕ)
      (network : List (Bytes × List ℕ)) (healthy : List ℕ)
      → group_of key (create_from host now heap nodes network healthy).0
        ≡ group_of key network ++ keep (λ r. bytes_eq (key_at host heap r) key) nodes
  unfolding create_from
  create_from-groups key now heap [] network healthy = sym (append-nil _)
  create_from-groups key now heap (r ∷ nodes) network healthy =
      create_from-groups key now heap nodes (insert_into (key_at host heap r) r network) _
      ∙ ap (λ g. g ++ keep (λ q. bytes_eq (key_at host heap q) key) nodes)
          (group_of-insert_into key (key_at host heap r) r network)
      ∙ append_assoc (group_of key network) (only_if (bytes_eq (key_at host heap r) key) r)
          (keep (λ q. bytes_eq (key_at host heap q) key) nodes)
      ∙ ap (group_of key network ++◌)
          (only_if-keep (λ q. bytes_eq (key_at host heap q) key) r nodes)

  create_from-healthy :
      (now : ℤ) (heap : Heap Key Channel Book) (nodes : List ℕ) (network : List (Bytes × List ℕ))
      (healthy : List ℕ)
      → (create_from host now heap nodes network healthy).1
        ≡ healthy ++ keep (healthy_at now heap) nodes
  unfolding create_from
  create_from-healthy now heap [] network healthy = sym (append-nil _)
  create_from-healthy now heap (r ∷ nodes) network healthy =
      create_from-healthy now heap nodes _ _ ∙ append_if (healthy_at now heap) healthy r nodes

  -- Of any list of nodes, those that stand under a key are the ones with that key, and the healthy
  -- ones those that are healthy at the time of the call, both in their order.
  pub create_network_from_nodes-keep :
      (key : Bytes) (now : ℤ) (heap : Heap Key Channel Book) (nodes : List ℕ)
      → (group_of key (create_network_from_nodes host now heap nodes).0
          ≡ keep (λ r. bytes_eq (key_at host heap r) key) nodes)
        × ((create_network_from_nodes host now heap nodes).1 ≡ keep (healthy_at now heap) nodes)
  unfolding create_network_from_nodes
  create_network_from_nodes-keep key now heap nodes =
      (create_from-groups key now heap nodes [] [], create_from-healthy now heap nodes [] [])

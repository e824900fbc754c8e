-- ===== src/ManagedNetwork/Replace/Kept.antt =====
-- Which nodes `_SetNetwork` of managed_network.go keeps.
use hedera_sdk_go.Prelude.{
  ℕ, suc, Bool, true, false, ◌≡◌, refl, ap, ◌∙◌, sym, List, [], ◌∷◌, ◌++◌, arith, if◌then◌else◌,
  append-nil, append_assoc, Bool-cases, ==_iff, Option-cases, ◌==◌, inl, inr, length, map, All,
  is_some, ◌&&◌, ◌||◌, not,
}
use native.Mathlib.Decide.{ℕ_discrete}
use hedera_sdk_go.Prelude.Int.{ℤ}
use hedera_sdk_go.Prelude.Outcome.{ok}
use hedera_sdk_go.Prelude.Text.{Bytes, bytes_eq}
use hedera_sdk_go.Node.{Host, Heap, Node, write, get_key, close_node}
use hedera_sdk_go.ManagedNode.{get_address}
use hedera_sdk_go.ManagedNetwork.{ManagedNetwork, keep, lookup, any_of}
use hedera_sdk_go.ManagedNetwork.Replace.{
  remove_at, node_at, indices_to_remove, get_nodes_to_remove, remove_nodes, add_nodes, key_at,
  address_at, with_nodes, store_nodes, managed_set_network,
}

remove_at-append :
    (pre nodes : List ℕ) (r : ℕ) → remove_at (length pre) (pre ++ r ∷ nodes) ≡ pre ++ nodes
remove_at-append [] nodes r = refl
remove_at-append (q ∷ pre) nodes r = ap (◌∷◌ q) (remove_at-append pre nodes r)

node_at-append : (pre nodes : List ℕ) (r : ℕ) → node_at (length pre) (pre ++ r ∷ nodes) ≡ r
node_at-append [] nodes r = refl
node_at-append (q ∷ pre) nodes r = node_at-append pre nodes r

keep_none : (p : ℕ → Bool) (nodes : List ℕ) → All (λ r. p r ≡ false) nodes → keep p nodes ≡ []
keep_none p [] h = refl
keep_none p (r ∷ nodes) (e, h) = rw e (keep_none p nodes h)

length_last : (pre : List ℕ) (r : ℕ) → length (pre ++ r ∷ []) ≡ suc (length pre)
length_last [] r = refl
length_last (q ∷ pre) r = ap suc (length_last pre r)

write-field :
    {Key Channel Book B : Type 0} (f : Node Key Channel Book → B) (r : ℕ)
    (n : Node Key Channel Book) (heap : Heap Key Channel Book)
    → f n ≡ f (heap.node r)
    → (q : ℕ) → f ((write r n heap).node q) ≡ f (heap.node q)
write-field f r n heap e q = elim (ℕ_discrete q r) [
  | yes h ↦ rw ((==_iff q r).1 h) (e ∙ ap (λ p. f (heap.node p)) (sym h))
  | no ne ↦ let b : (q == r) ≡ false = ground arith in rw b refl
]

-- A text is among texts.
unfoldable pub contains : Bytes → List Bytes → Bool
contains s [] = false
contains s (t ∷ texts) = let rest = contains s texts in if bytes_eq t s then true else rest

any_of-contains :
    (f : ℕ → Bytes) (s : Bytes) (nodes : List ℕ)
    → any_of (λ r. bytes_eq (f r) s) nodes ≡ contains s (map f nodes)
unfolding contains
any_of-contains f s [] = refl
any_of-contains f s (r ∷ nodes) =
    ap (λ b. if bytes_eq (f r) s then true else b) (any_of-contains f s nodes)

module _ {Key Channel Book : Type 0} (host : Host Key Channel) where
  -- Closing connections changes no key and no address.
  abbrev pub SameNames : Heap Key Channel Book → Heap Key Channel Book → Type 0
  SameNames heap later =
      ((r : ℕ) → key_at host later r ≡ key_at host heap r)
      × ((r : ℕ) → address_at host later r ≡ address_at host heap r)

  abbrev pub closed : ℕ → Heap Key Channel Book → Heap Key Channel Book
  closed r heap = write r (close_node host (heap.node r)).0 heap

  close_node-key : (n : Node Key Channel Book) → get_key host (close_node host n).0 ≡ get_key host n
  unfolding close_node get_key
  close_node-key n = elim (Option-cases n.channel) [ inl e ↦ rw e refl | inr (c, e) ↦ rw e refl ]

  close_node-managed : (n : Node Key Channel Book) → (close_node host n).0.managed ≡ n.managed
  unfolding close_node
  close_node-managed n = elim (Option-cases n.channel) [
    | inl e ↦ rw e refl
    | inr (c, e) ↦ rw e refl
  ]

  closed-SameNames : (r : ℕ) (heap : Heap Key Channel Book) → SameNames heap (closed r heap)
  closed-SameNames r heap = (
    write-field (get_key host) r (close_node host (heap.node r)).0 heap
        (close_node-key (heap.node r)),
    write-field (λ n. get_address n.managed) r (close_node host (heap.node r)).0 heap
        (ap get_address (close_node-managed (heap.node r))),
  )

  closes :
      ((c : Channel) → host.close_channel c ≡ ok tt)
      → (n : Node Key Channel Book) → (close_node host n).1 ≡ ok tt
  unfolding close_node
  closes h n = elim (Option-cases n.channel) [ inl e ↦ rw e refl | inr (c, e) ↦ rw e (h c) ]

  remove_nodes-closes :
      ((c : Channel) → host.close_channel c ≡ ok tt)
      → (i : ℕ) (nodes more : List ℕ) (heap : Heap Key Channel Book)
      → remove_nodes host (i ∷ more) nodes heap
        ≡ remove_nodes host more (remove_at i nodes) (closed (node_at i nodes) heap)
  unfolding remove_nodes
  remove_nodes-closes h i nodes more heap =
      rw (remove_nodes, closes h (heap.node (node_at i nodes))) refl

  remove_nodes-step :
      ((c : Channel) → host.close_channel c ≡ ok tt)
      → (pre nodes : List ℕ) (r : ℕ) (more : List ℕ) (heap : Heap Key Channel Book)
      → remove_nodes host (length pre ∷ more) (pre ++ r ∷ nodes) heap
        ≡ remove_nodes host more (pre ++ nodes) (closed r heap)
  remove_nodes-step h pre nodes r more heap =
      remove_nodes-closes h (length pre) (pre ++ r ∷ nodes) more heap
      ∙ ap
          (λ items.
            remove_nodes host more items (closed (node_at (length pre) (pre ++ r ∷ nodes)) heap))
          (remove_at-append pre nodes r)
      ∙ ap (λ q. remove_nodes host more (pre ++ nodes) (closed q heap)) (node_at-append pre nodes r)

  SameNames-trans : (a b c : Heap Key Channel Book) → SameNames a b → SameNames b c → SameNames a c
  SameNames-trans a b c (k, l) (m, n) = ((λ r. m r ∙ k r), (λ r. n r ∙ l r))

  -- The indices behind a prefix, and any further ones: what is left of the nodes passes the test.
  remove_nodes-indices_to_remove :
      ((c : Channel) → host.close_channel c ≡ ok tt)
      → (keeps : ℕ → Bool) (pre nodes more : List ℕ) (heap : Heap Key Channel Book)
      → (later : Heap Key Channel Book) × SameNames heap later
        × (remove_nodes host
              (indices_to_remove keeps (length pre) nodes ++ more)
              (pre ++ nodes)
              heap
            ≡ remove_nodes host more (pre ++ keep keeps nodes) later)
  unfolding indices_to_remove
  remove_nodes-indices_to_remove h keeps pre [] more heap = (heap, ((λ r. refl), (λ r. refl)), refl)
  remove_nodes-indices_to_remove h keeps pre (r ∷ nodes) more heap = elim (Bool-cases (keeps r)) [
    | inl e ↦
        let (later, same, k) =
          remove_nodes-indices_to_remove h keeps (pre ++ r ∷ []) nodes more heap in
        (
          later,
          same,
          rw e (
              cc (
                k,
                length_last pre r,
                append-nil (indices_to_remove keeps (suc (length pre)) nodes),
                append_assoc pre (r ∷ []) nodes,
                append_assoc pre (r ∷ []) (keep keeps nodes),
              )),
        )
    | inr e ↦
        let (later, same, k) =
          remove_nodes-indices_to_remove h keeps (pre ++ r ∷ []) nodes (length pre ∷ more) heap in
        (
          closed r later,
          SameNames-trans heap later (closed r later) same (closed-SameNames r later),
          rw e (
              cc (
                k,
                length_last pre r,
                append_assoc (indices_to_remove keeps (suc (length pre)) nodes) (length pre ∷ [])
                    more,
                append_assoc pre (r ∷ []) nodes,
                append_assoc pre (r ∷ []) (keep keeps nodes),
                remove_nodes-step h pre (keep keeps nodes) r more later,
              )),
        )
  ]

  add_nodes_same :
      (heap later : Heap Key Channel Book)
      → SameNames heap later
      → (kept : List ℕ) (network : List (Bytes × ℕ)) (new_nodes : List ℕ)
      → add_nodes host later kept network new_nodes ≡ add_nodes host heap kept network new_nodes
  unfolding add_nodes
  add_nodes_same heap later same kept [] new_nodes = refl
  add_nodes_same heap later same kept ((key, value) ∷ network) new_nodes =
      add_nodes_same heap later same kept network _
      ∙ ap (add_nodes host heap kept network) (λ i.
        if any_of (λ r. bytes_eq (same.0 r i) key) kept
          && any_of (λ r. bytes_eq (same.1 r i) (same.1 value i)) kept
        then new_nodes
        else new_nodes ++ value ∷ [])

  -- The nodes of which the new network has the key.
  abbrev pub kept_nodes : List (Bytes × ℕ) → ManagedNetwork Key Channel Book → List ℕ
  kept_nodes network this =
      keep (λ r. is_some (lookup (key_at host this.heap r) network)) this.nodes

  -- The nodes of a network whose key or whose address is not among the given ones.
  unfoldable pub new_among :
      Heap Key Channel Book → List Bytes → List Bytes → List (Bytes × ℕ) → List ℕ
  unfolding contains
  new_among heap keys addresses [] = []
  new_among heap keys addresses ((key, value) ∷ network) =
      let rest = new_among heap keys addresses network in
      if not (contains key keys) || not (contains (address_at host heap value) addresses)
      then value ∷ rest
      else rest

  add_nodes-new_among :
      (heap : Heap Key Channel Book) (kept : List ℕ) (network : List (Bytes × ℕ))
      (new_nodes : List ℕ)
      → add_nodes host heap kept network new_nodes
        ≡ new_nodes
          ++ new_among heap (map (key_at host heap) kept) (map (address_at host heap) kept) network
  unfolding add_nodes new_among
  add_nodes-new_among heap kept [] new_nodes = sym (append-nil new_nodes)
  add_nodes-new_among heap kept ((key, value) ∷ network) new_nodes =
      let keys = map (key_at host heap) kept in
      let addresses = map (address_at host heap) kept in
      let k = any_of-contains (key_at host heap) key kept in
      let a = any_of-contains (address_at host heap) (address_at host heap value) kept in
      elim (Bool-cases (contains key keys)) [
        | inl e ↦ elim (Bool-cases (contains (address_at host heap value) addresses)) [
          | inl f ↦ rw (k, a, e, f) (add_nodes-new_among heap kept network new_nodes)
          | inr f ↦
              rw (k, a, e, f)
                (add_nodes-new_among heap kept network (new_nodes ++ value ∷ [])
                  ∙ append_assoc new_nodes (value ∷ []) (new_among heap keys addresses network))
        ]
        | inr e ↦
            rw (k, a, e)
              (add_nodes-new_among heap kept network (new_nodes ++ value ∷ [])
                ∙ append_assoc new_nodes (value ∷ []) (new_among heap keys addresses network))
      ]

  -- When no connection fails to close, `_SetNetwork` succeeds, keeps the nodes whose keys the new
  -- network has, in their order, and appends the new nodes whose key is that of none of these or
  -- whose address is that of none of these.
  pub managed_set_network-nodes :
      ((c : Channel) → host.close_channel c ≡ ok tt)
      → (now : ℤ) (network : List (Bytes × ℕ)) (this : ManagedNetwork Key Channel Book)
      → ((managed_set_network host now network this).1 ≡ ok tt)
        × ((managed_set_network host now network this).0.nodes
            ≡ kept_nodes network this
              ++ new_among this.heap
                  (map (key_at host this.heap) (kept_nodes network this))
                  (map (address_at host this.heap) (kept_nodes network this))
                  network)
  unfolding get_nodes_to_remove remove_nodes with_nodes managed_set_network store_nodes
  managed_set_network-nodes h now network this =
      let keeps : ℕ → Bool = λ r. is_some (lookup (key_at host this.heap r) network) in
      let (later, same, k) = remove_nodes-indices_to_remove h keeps [] this.nodes [] this.heap in
      let e : managed_set_network host now network this
          ≡ store_nodes host now network this (later, ok (kept_nodes network this)) =
        ap (store_nodes host now network this) (
          ap (λ indices. remove_nodes host indices this.nodes this.heap)
            (sym (append-nil (indices_to_remove keeps 0 this.nodes)))
          ∙ k) in
      (
        ap (λ s. s.1) e,
        ap (λ s. s.0.nodes) e
            ∙ add_nodes_same this.heap later same (kept_nodes network this) network
                (kept_nodes network this)
            ∙ add_nodes-new_among this.heap (kept_nodes network this) network
                (kept_nodes network this),
      )

  new_among-none :
      (heap : Heap Key Channel Book) (network : List (Bytes × ℕ))
      → new_among heap [] [] network ≡ map (λ e. e.1) network
  unfolding new_among contains
  new_among-none heap [] = refl
  new_among-none heap ((key, value) ∷ network) = ap (◌∷◌ value) (new_among-none heap network)

  -- When the new network has the key of no node and no connection fails to close, `_SetNetwork`
  -- replaces all nodes by the new ones.
  pub managed_set_network-replaces :
      ((c : Channel) → host.close_channel c ≡ ok tt)
      → (now : ℤ) (network : List (Bytes × ℕ)) (this : ManagedNetwork Key Channel Book)
      → All (λ r. is_some (lookup (key_at host this.heap r) network) ≡ false) this.nodes
      → (managed_set_network host now network this).0.nodes ≡ map (λ e. e.1) network
  managed_set_network-replaces h now network this none_kept =
      (managed_set_network-nodes h now network this).1
      ∙ ap
          (λ kept.
            kept
            ++ new_among this.heap (map (key_at host this.heap) kept)
                (map (address_at host this.heap) kept) network)
          (keep_none (λ r. is_some (lookup (key_at host this.heap r) network)) this.nodes none_kept)
      ∙ new_among-none this.heap network

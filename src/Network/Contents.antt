-- ===== src/Network/Contents.antt =====
-- Which node network.go gives for an account id.
use hedera_sdk_go.Prelude.{ℕ, ◌≡◌, refl, ◌∙◌, ap, List, [], ◌∷◌, none, some, Option}
use hedera_sdk_go.Prelude.Int.{ℤ}
use hedera_sdk_go.Prelude.Outcome.{Outcome, ok, panic, out_of_range}
use hedera_sdk_go.Prelude.Text.{bytes_eq}
use hedera_sdk_go.AccountId.{AccountId, to_string}
use hedera_sdk_go.Node.{Host, Heap}
use hedera_sdk_go.ManagedNetwork.{keep, lookup}
use hedera_sdk_go.ManagedNetwork.Groups.{group_of, create_network_from_nodes-keep}
use hedera_sdk_go.ManagedNetwork.Replace.{key_at, with_nodes}
use hedera_sdk_go.Network.{Network, get_node_for_account_id}

abbrev pub first_or_panic : List ℕ → Outcome ℕ
first_or_panic [] = panic out_of_range
first_or_panic (r ∷ _) = ok r

module _ {Key Channel Book : Type 0} (host : Host Key Channel) where
  get_node_for_account_id-group_of :
      (id : AccountId Key) (this : Network Key Channel Book)
      → get_node_for_account_id host id this
        ≡ first_or_panic (group_of (to_string host.key_string id) this.managed.network)
  unfolding get_node_for_account_id
  get_node_for_account_id-group_of id this =
      by_group (lookup (to_string host.key_string id) this.managed.network)
    where
      by_group :
          (o : Option (List ℕ))
          → elim o [
            | none ↦ panic out_of_range
            | some [] ↦ panic out_of_range
            | some (r ∷ _) ↦ ok r
          ]
            ≡ first_or_panic (elim o [ none ↦ [] | some items ↦ items ])
      by_group none = refl
      by_group (some []) = refl
      by_group (some (r ∷ _)) = refl

  -- When a network has stored its nodes anew, `_GetNodeForAccountID` gives the first of them whose
  -- key is the text of the account id, and panics when there is none.
  pub get_node_for_account_id-with_nodes :
      (now : ℤ) (heap : Heap Key Channel Book) (nodes : List ℕ) (id : AccountId Key)
      (this : Network Key Channel Book)
      → get_node_for_account_id host id
          (record this { managed = with_nodes host now heap nodes this.managed })
        ≡ first_or_panic
            (keep (λ r. bytes_eq (key_at host heap r) (to_string host.key_string id)) nodes)
  unfolding with_nodes
  get_node_for_account_id-with_nodes now heap nodes id this =
      get_node_for_account_id-group_of id
        (record this { managed = with_nodes host now heap nodes this.managed })
      ∙ ap first_or_panic
          (create_network_from_nodes-keep host (to_string host.key_string id) now heap nodes).0

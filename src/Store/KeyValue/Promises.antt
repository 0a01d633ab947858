-- ===== src/Store/KeyValue/Promises.antt =====
-- The key-value store keeps the promises of a store of channels.
use indra.Prelude.{
  String, false, some, [], ◌∷◌, ◌≡◌, refl, sym, ap, subst, ◌∙◌, arith, inl, inr, Bool-cases,
}
use indra.Dict.{Dict, lookup, has, delete}
use indra.AppInstance.{AppInstanceJson}
use indra.StateChannel.Channel.{AppInstanceProposal}
use indra.StateChannel.Json.{StateChannelJson, map_values-back, AllValues}
use indra.Store.Service.{
  Leads, Promises, with_free_balance, with_proposal, without_proposal, with_app, without_app,
}
use indra.Store.KeyValue.{
  WrappedStorage, StoredChannel, stored_channel, read_channel, Json, get_state_channel,
  save_state_channel, save_free_balance, save_app_proposal, remove_app_proposal, save_app_instance,
  remove_app_instance, key_value_storage, properly_convert_channel_null_vals,
}

-- What a storage and the texts of JSON are relied on for: a text is read back, and what was written as
-- a text is parsed again.
pub record IsReliable {S T U : Type 0} (json : Json T U) (storage : WrappedStorage S U)
    : Type 0 where
  pub reads_back :
      (s : S) (key : String) (value : U)
      → storage.get_item (storage.set_item s key value) key ≡ some value
  pub parses_channel : (c : StoredChannel T) → json.parse_channel (json.stringify_channel c) ≡ c
  pub parses_app : (a : AppInstanceJson) → json.parse_app (json.stringify_app a) ≡ a
  pub parses_proposal :
      (p : AppInstanceProposal) → json.parse_proposal (json.stringify_proposal p) ≡ p

pub delete-absent {ℓ} : {V : Type ℓ} (k : String) (d : Dict V) → has k d ≡ false → delete k d ≡ d
unfolding lookup delete
delete-absent k [] h = refl
delete-absent k ((j, v) ∷ d) h = ground (arith, delete-absent k d)

all_values : {V : Type 0} {P : V → Type 0} (d : Dict V) → ((v : V) → P v) → AllValues P d
all_values [] h = tt
all_values ((k, v) ∷ d) h = (h v, all_values d h)

module _ {S T U : Type 0} (json : Json T U) (storage : WrappedStorage S U)
    (r : IsReliable json storage) where
  converted :
      (j : StateChannelJson) → properly_convert_channel_null_vals json (stored_channel json j) ≡ j
  unfolding properly_convert_channel_null_vals
  converted j =
      rw
        (
          map_values-back json.stringify_app json.parse_app j.app_instances
              (all_values j.app_instances r.parses_app),
          map_values-back json.stringify_proposal json.parse_proposal j.proposed_app_instances
              (all_values j.proposed_app_instances r.parses_proposal),
        )
        refl

  saved-Keeps :
      (s : S) (j : StateChannelJson)
      → get_state_channel json storage (save_state_channel json storage s j) j.multisig_address
        ≡ some j
  unfolding get_state_channel save_state_channel
  saved-Keeps s j =
      ap (read_channel json storage) (r.reads_back s _ _)
      ∙ ap (λ c. some (properly_convert_channel_null_vals json c)) (r.parses_channel _)
      ∙ ap some (converted j)

  removes_proposal_lem :
      (w : S) (j : StateChannelJson) (hash : String)
      → get_state_channel json storage w j.multisig_address ≡ some j
      → Leads
          (key_value_storage json storage)
          (remove_app_proposal json storage w j.multisig_address hash)
          (without_proposal hash j)
  unfolding key_value_storage remove_app_proposal
  removes_proposal_lem w j hash keeps = elim (Bool-cases (has hash j.proposed_app_instances)) [
    | inl there ↦ (
      save_state_channel json storage w (without_proposal hash j),
      rw (keeps, there) refl,
      saved-Keeps w (without_proposal hash j),
    )
    | inr absent ↦ (
      w,
      rw (keeps, absent) refl,
      keeps
          ∙ ap (λ d. some (record j { proposed_app_instances = d }))
              (sym (delete-absent hash j.proposed_app_instances absent)),
    )
  ]

  removes_app_lem :
      (w : S) (j : StateChannelJson) (hash : String)
      → get_state_channel json storage w j.multisig_address ≡ some j
      → Leads
          (key_value_storage json storage)
          (remove_app_instance json storage w j.multisig_address hash)
          (without_app hash j)
  unfolding key_value_storage remove_app_instance
  removes_app_lem w j hash keeps = elim (Bool-cases (has hash j.app_instances)) [
    | inl there ↦ (
      save_state_channel json storage w (without_app hash j),
      rw (keeps, there) refl,
      saved-Keeps w (without_app hash j),
    )
    | inr absent ↦ (
      w,
      rw (keeps, absent) refl,
      keeps
          ∙ ap (λ d. some (record j { app_instances = d }))
              (sym (delete-absent hash j.app_instances absent)),
    )
  ]

  -- Each operation of the key-value store on a channel that it keeps succeeds, and afterwards it keeps
  -- the channel with just that change, whatever reliable storage it stands on.
  pub key_value_storage-Promises : (m : String) → Promises (key_value_storage json storage) m
  unfolding key_value_storage save_free_balance save_app_proposal remove_app_proposal
      save_app_instance remove_app_instance
  key_value_storage-Promises m = record {
    saves_channel = λ w j here. saved-Keeps w j;
    saves_free_balance = λ w j fb here keeps.
        let found : get_state_channel json storage w m ≡ some j = rw (← here) keeps in
        (_, rw found refl, saved-Keeps w (with_free_balance fb j));
    saves_proposal = λ w j p here keeps.
        let found : get_state_channel json storage w m ≡ some j = rw (← here) keeps in
        (_, rw found refl, saved-Keeps w (with_proposal p j));
    removes_proposal = λ w j hash here keeps.
        subst
          (λ a.
            Leads (key_value_storage json storage) (remove_app_proposal json storage w a hash)
              (without_proposal hash j))
          here (removes_proposal_lem w j hash keeps);
    saves_app = λ w j a here keeps.
        let found : get_state_channel json storage w m ≡ some j = rw (← here) keeps in
        (_, rw found refl, saved-Keeps w (with_app a j));
    removes_app = λ w j hash here keeps.
        subst
          (λ a.
            Leads (key_value_storage json storage) (remove_app_instance json storage w a hash)
              (without_app hash j))
          here (removes_app_lem w j hash keeps);
  }

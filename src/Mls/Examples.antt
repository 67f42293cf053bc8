-- ===== src/Mls/Examples.antt =====
-- Tests of the MLS profile.
use go_wmp.Types.Json.{null}
use go_wmp.Prelude.{◌≡◌, refl, String, none, some, List, [], ◌∷◌, true, false, is_some}
use go_wmp.Prelude.Int.{pos}
use go_wmp.Prelude.Maps.{Map, lookup}
use go_wmp.Types.Mls.{GroupCreateParams, GroupAddParams}
use go_wmp.Relay.{version_only}
use go_wmp.Jsonrpc.{new_rpc_error}
use go_wmp.Session.{Session, memory_session_store}
use go_wmp.Profile.Base.{base_handler}
use go_wmp.Peer.{State}
use go_wmp.Peer.Dispatch.{dispatch_method, fail_with}
use go_wmp.Fixtures.{codec, context, structs}
use go_wmp.Mls.{err_method_not_found, MlsStructs, methods}
use go_wmp.Mls.Noop.{
  Groups, noop_mls_handler, group_create, epoch_of, process_commit, encrypt, decrypt,
}
use go_wmp.Mls.Advances.{IsValid, Keeps, total_epoch}
use go_wmp.Mls.Groups.{Call, creates, adds, call_all, groups_advance}
use go_wmp.Mls.Provider.{updates, decrypt-encrypt, provider_after}
use go_wmp.Mls.Dispatch.{with_mls, IsOther, peer_dispatches_mls}

abbrev friends : GroupCreateParams
friends = record {
  wmp = record version_only { sender = "alice" };
  group_id = "g1";
  cipher_suite = pos 1;
  accepted_credential_types = [];
  accepted_identity_schemes = [];
  group_info = "";
  welcomes = ("bob", "w") ∷ [];
}

abbrev carol : GroupAddParams
carol = record { wmp = version_only; participant = "carol"; commit = ""; welcome = "" }

abbrev history : List Call
history = creates friends ∷ adds "g1" carol ∷ []

empty-IsValid : IsValid []
unfolding lookup
empty-IsValid = record { distinct = tt; named = λ id g e. absurd (cc e); not_empty = refl }

groups_advance_example :
    IsValid (call_all codec history [])
    × Keeps [] (call_all codec history [])
    × (total_epoch (call_all codec history []) ≡ 1)
unfolding go_wmp.Mls.Groups.commits go_wmp.Mls.Noop.group_add go_wmp.Mls.Noop.first_met
    go_wmp.Mls.Groups.call group_create lookup go_wmp.Prelude.Maps.insert
groups_advance_example = groups_advance codec history [] empty-IsValid

-- The last option allows plaintext, or denies it.
decrypt-encrypt_example :
    let p = provider_after (false ∷ true ∷ []) (updates "g1" ∷ []) in
    let q = provider_after (true ∷ false ∷ []) (updates "g1" ∷ []) in
    let e = encrypt codec "g1" "hello" p in
    ((e.1 ≡ none) × (decrypt codec "g1" e.0.0 p ≡ ((some "hello", 0), none)))
    × (((encrypt codec "g1" "hello" q).0.0 ≡ "")
        × (is_some (encrypt codec "g1" "hello" q).1 ≡ true)
        × ((decrypt codec "g1" "secret" q).0.0 ≡ none)
        × (is_some (decrypt codec "g1" "secret" q).1 ≡ true))
decrypt-encrypt_example = (
  (decrypt-encrypt codec (false ∷ true ∷ []) (updates "g1" ∷ []) "g1" "hello" "secret").0 refl,
  (decrypt-encrypt codec (true ∷ false ∷ []) (updates "g1" ∷ []) "g1" "hello" "secret").1 refl,
)

abbrev other_method : String
other_method = "app.ping"

other_method-IsOther : IsOther other_method methods
unfolding methods
other_method-IsOther =
    ((λ e. cc), ((λ e. cc), ((λ e. cc), ((λ e. cc), ((λ e. cc), ((λ e. cc), tt))))))

abbrev decoders : MlsStructs
decoders = record {
  group_create = λ s. some friends;
  group_join = λ s. none;
  group_add = λ s. some carol;
  group_remove = λ s. none;
  group_update = λ s. none;
  message_fetch = λ s. none;
  group_created = λ r. null;
  group_joined = λ r. null;
  group_added = λ r. null;
  group_removed = λ r. null;
  message_fetched = λ r. null;
}

abbrev state : State Groups (Map Session)
state = record {
  registry =
      with_mls codec structs memory_session_store base_handler decoders
        (noop_mls_handler codec (λ w. "g1"));
  sessions = none;
  world = [];
}

peer_dispatches_mls_example :
    dispatch_method codec structs memory_session_store base_handler context other_method none state
    ≡ (fail_with (new_rpc_error err_method_not_found none), state)
unfolding go_wmp.Peer.Dispatch.route
peer_dispatches_mls_example =
    (peer_dispatches_mls codec structs memory_session_store base_handler decoders
        (noop_mls_handler codec (λ w. "g1"))).1
      other_method refl other_method-IsOther context none state refl

-- ===== src/Peer/SessionTests.antt =====
-- Tests of session creation and of the enrichment of the context.
use Prim.Native.String.{◌++◌ as append}
use go_wmp.Prelude.Maps.{Map, lookup}
use go_wmp.Peer.{State}
use go_wmp.Peer.Sessions.{IsHooked}
use go_wmp.Session.{Session}
use go_wmp.Profile.{SessionHook}
use mathlib.Core.Option.{map as map_option}
use go_wmp.Peer.Sessions.{on_session_create_stores}
use go_wmp.Peer.Dispatch.{on_session_create}
use go_wmp.Peer.{pos}
use go_wmp.Profile.{Handler}
use go_wmp.Types.Session.{SessionCreateParams, SessionCreateResult}
use go_wmp.Prelude.{◌≡◌, refl, String, ℕ, ◌+◌, none, some, [], ◌∷◌}
use go_wmp.Fixtures.{codec, structs, handler, state, context, security}
use go_wmp.Session.{memory_session_store}
use go_wmp.Relay.{version_only}

-- Parameters of the version given, and a handler that creates the session "s1".
abbrev params_of : String → SessionCreateParams
params_of v = record {
  wmp = record version_only { version = v };
  participants = "alice" ∷ [];
  capabilities_offered = [];
  security = security;
  ttl = pos 0;
  auth = none;
  invitation_nonce = "";
}

abbrev result : SessionCreateResult
result = record {
  wmp = record version_only { session_id = "s1" };
  capabilities = [];
  security = security;
  challenge = "";
  resumption_token = "";
}

abbrev creator : Handler ℕ
creator = record handler { session_create = λ ctx ps w. ((some result, none), w + 1) }

-- A hook that appends a mark to the resumption token and doubles the count, and one that appends
-- another and adds 5.
abbrev doubles : SessionHook ℕ
doubles = record {
  on_session_create =
      λ ctx s ps w. (none, record s { resumption_token = append s.resumption_token "x" }, w + w);
  on_session_close = λ ctx s ps w. w;
}

abbrev adds_five : SessionHook ℕ
adds_five = record {
  on_session_create =
      λ ctx s ps w. (none, record s { resumption_token = append s.resumption_token "y" }, w + 5);
  on_session_close = λ ctx s ps w. w;
}

abbrev hooked : State ℕ (Map Session)
hooked = record state {
  registry = record state.registry { session_hooks = doubles ∷ adds_five ∷ [] };
  sessions = some [];
  world = 2;
}

on_session_create_stores_example :
    IsHooked memory_session_store context (params_of "0.1") result hooked [] 3 (
      on_session_create codec structs memory_session_store creator context (params_of "0.1") hooked)
on_session_create_stores_example =
    ((on_session_create_stores codec structs memory_session_store creator context (params_of "0.1")
          hooked).1
        refl).2
      result [] refl refl (λ e. cc)

-- A test: the hooks run in the order of the registry, and the session is stored behind the second.
hooks_in_order :
    let out =
      on_session_create codec structs memory_session_store creator context
        (params_of "0.1")
        hooked in
    (out.1.world ≡ 11)
    × (map_option (λ m. map_option (λ s. s.resumption_token) (lookup "s1" m)) out.1.sessions
        ≡ some (some "xy"))
unfolding on_session_create go_wmp.Peer.is_supported_version go_wmp.Peer.Dispatch.session_answer
    go_wmp.Peer.Dispatch.store_session go_wmp.Registry.run_session_create_hooks lookup
    go_wmp.Session.create go_wmp.Prelude.Maps.insert
hooks_in_order = (refl, refl)

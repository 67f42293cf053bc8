-- ===== src/Relay/Examples.antt =====
-- Tests of the relay.
use go_wmp.Relay.Mailbox.{enqueue-mailbox, stamped, drain-mailbox, mailbox-purge, mailbox}
use go_wmp.Types.Json.{Time}
use go_wmp.Types.Message.{RelayRegisterParams}
use go_wmp.Relay.{is_live, drain, enqueue, new, purge_expired, Config, Relay}
use go_wmp.Prelude.{
  ◌+◌, filter, ◌<◌, ◌++◌, false, ◌≡◌, refl, String, none, some, List, [], ◌∷◌, true, ◌↔◌, arith,
  ◌≢◌,
}
use go_wmp.Prelude.Int.{pos}
use go_wmp.Relay.Queues.{purges, enqueues, run-new-IsValid, Call, run, IsValid}

abbrev small : Config
small = record { max_queue_size = pos 2; message_ttl = pos 100; registration_ttl = pos 50 }

abbrev alice : RelayRegisterParams
alice = record {
  wmp = record {
    version = "0.1";
    session_id = "";
    sender = "alice";
    timestamp = none;
    timestamp_token = "";
    expires_at = none;
    encrypted = false;
    epoch = none;
    signature = "";
    identity_assertions = [];
    relay_chain = [];
    trace_id = "";
    sender_delegate = none;
    deliver_after = none;
  };
  auth = none;
}

abbrev one_queue : Relay
one_queue = record {
  config = record { max_queue_size = 2; message_ttl = 100; registration_ttl = 50 };
  registrations =
      ("alice", record { participant = "alice"; registered_at = 0; expires_at = 50 }) ∷ [];
  queues = ("alice", record { body = "m1"; queued_at = 0; expires_at = 30 } ∷ []) ∷ [];
}

one_queue-IsValid : IsValid one_queue
unfolding go_wmp.Prelude.Maps.lookup
one_queue-IsValid = record {
  registered_once = (refl, tt);
  queued_once = (refl, tt);
  bounded = (omega arith, tt);
}

abbrev history : List (Time × Call)
history =
    (0, enqueues "alice" "m1")
    ∷ (1, enqueues "alice" "m2")
    ∷ (2, enqueues "alice" "m3")
    ∷ (3, purges)
    ∷ []

run-new-IsValid_example : IsValid (run (λ s. some alice) (new small) history)
run-new-IsValid_example = run-new-IsValid (λ s. some alice) small history

enqueue-mailbox_example :
    mailbox 20 "alice" (enqueue 10 "alice" "m2" one_queue).1
    ≡ mailbox 20 "alice" one_queue ++ filter (is_live 20) (stamped 10 "m2" one_queue ∷ [])
unfolding enqueue go_wmp.Prelude.Maps.lookup
enqueue-mailbox_example = (enqueue-mailbox 10 20 "alice" "m2" one_queue (omega arith)).1 refl

drain-mailbox_example :
    ((drain 10 "alice" one_queue).0 ≡ mailbox 10 "alice" one_queue)
    × (mailbox 20 "alice" (drain 10 "alice" one_queue).1 ≡ [])
    × ((j : String)
        → "alice" ≢ j
        → mailbox 20 j (drain 10 "alice" one_queue).1 ≡ mailbox 20 j one_queue)
    × ((drain 10 "alice" one_queue).1.registrations ≡ one_queue.registrations)
drain-mailbox_example = drain-mailbox 10 20 "alice" one_queue

mailbox-purge_example :
    mailbox 45 "alice" (purge_expired 40 one_queue) ≡ mailbox 45 "alice" one_queue
mailbox-purge_example = mailbox-purge 40 45 "alice" one_queue one_queue-IsValid (omega arith)

alice_named : ◌≢◌ {A = String} "alice" ""
alice_named h = cc

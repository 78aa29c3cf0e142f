-- ===== src/Queue/Loop/Tests.antt =====
-- One message under one worker, and under two.
use adaptive_gateway.Prelude.{◌≡◌, refl, inl, Bool, true, false, none, some, [], ◌∷◌, arith}
use adaptive_gateway.Prelude.Texts.{Text, str, texts}
use adaptive_gateway.Prelude.Dicts.{Dict, lookup}
use adaptive_gateway.Prelude.Floats.{Fixed, fin, fixed}
use adaptive_gateway.Prelude.Results.{ok, raise, redis_error}
use adaptive_gateway.Json.{Json, text}
use adaptive_gateway.Config.{get_route_rule}
use adaptive_gateway.ProxyHttp.Bounded.{bounded_request, read_chunks, decoded_headers, streamed}
use adaptive_gateway.ProxyHttp.Target.{destination_service, rstrip}
use adaptive_gateway.Redis.{answered}
use adaptive_gateway.Queue.Message.{Delivery}
use adaptive_gateway.Queue.Worker.{
  handle, deliver, try_send, charge, send, conclude, bury, ack, judge, headers_of, backoff_seconds,
}
use adaptive_gateway.Queue.Worker.Resend.{IsSendable}
use adaptive_gateway.Queue.Tests.{parts, policy, loads, sendable, budget, fresh, delivery, fields}
use adaptive_gateway.Queue.Loop.{
  Entry, Round, SyncWorker, find, fetch, handle_entry, handle_all, run,
}
use adaptive_gateway.Queue.Loop.Group.{AreAccounted, run-AreAccounted}
use adaptive_gateway.Queue.Loop.Stale.{stale_copy_resends}

abbrev queued : Entry Fixed
queued = record { id = str "1-0"; fields = fields; message = fresh }

abbrev started : SyncWorker Fixed
started = record {
  entries = queued ∷ [];
  claim_cursor = str "0-0";
  last_sample = fin 0;
  depth_gauge = none;
}

-- The upstream answers 200.
abbrev succeeding : Text → Bool × Delivery Fixed
succeeding _ = (true, record (delivery answered 1000000) { exchange = streamed 200 [] [] [] none })

abbrev timing_out : Text → Bool × Delivery Fixed
timing_out _ = (true, delivery answered 1000000)

abbrev first_round : Round Fixed
first_round = record {
  ensured = ok tt;
  answers = record {
    fresh = ok (str "1-0" ∷ []);
    claimed = raise redis_error;
    serve_fresh = timing_out;
    serve_claimed = succeeding;
  };
  now = fin 20000;
  depth = some 1;
}

abbrev second_round : Round Fixed
second_round = record first_round {
  answers = record {
    fresh = ok [];
    claimed = ok (str "0-0", str "1-0" ∷ []);
    serve_fresh = timing_out;
    serve_claimed =
        λ _. (true, record (delivery answered 9000000) { exchange = streamed 200 [] [] [] none });
  };
}

run-AreAccounted_example :
    AreAccounted fixed parts loads sendable policy budget
      (run fixed parts loads sendable policy budget 15
        (first_round ∷ second_round ∷ [])
        started).entries
run-AreAccounted_example =
    run-AreAccounted fixed parts loads sendable policy budget 15 (first_round ∷ second_round ∷ [])
      started (((tt, tt), tt), ((tt, (tt, tt)), tt))
      ((omega arith, (λ _. (omega arith, omega arith)), inl refl), tt)

abbrev acknowledged : Entry Fixed
acknowledged = record queued {
  message = record fresh { in_stream = false; pending = false; sent = 1; succeeded = true };
}

-- The copy of this worker, and the run of another worker in between.
other_worker :
    handle_all fixed parts loads sendable policy budget succeeding
      (fetch (queued ∷ []) (str "1-0" ∷ []))
      (queued ∷ [])
    ≡ (acknowledged ∷ [], none)
unfolding handle_all handle_entry fetch handle deliver try_send charge send conclude bury ack judge
    headers_of backoff_seconds destination_service rstrip get_route_rule bounded_request read_chunks
    decoded_headers texts lookup
other_worker = refl

abbrev headers : Dict (Json Fixed)
headers = (str "idempotency-key", text (str "k")) ∷ []

is_sendable :
    IsSendable fixed parts loads sendable policy budget fields (succeeding (str "1-0")).1 headers
unfolding judge headers_of destination_service rstrip get_route_rule texts lookup
is_sendable = record {
  due_read = refl;
  attempts_read = refl;
  attempts_write = refl;
  due_write = refl;
  eligible = refl;
  encodes = refl;
}

stale_copy_resends_example :
    (e : Entry Fixed) × (find
        (str "1-0")
        (handle_entry fixed parts loads sendable policy budget
          (succeeding (str "1-0"))
          (str "1-0")
          fields
          (acknowledged ∷ [])).0
      ≡ some e)
    × (e.message.sent ≡ 2)
unfolding texts
stale_copy_resends_example =
    stale_copy_resends fixed parts loads sendable policy budget (acknowledged ∷ []) (str "1-0")
      acknowledged fields (succeeding (str "1-0")).1 headers refl refl refl is_sendable

-- ===== src/Session/HeartbeatTests.antt =====
-- The properties of the clock of a session, and of its end, at concrete inputs.
use prometheus_ws_proxy_clie.Base.{none}
use prometheus_ws_proxy_clie.Session.Stopped.{Sustained, run-HasStopped}
use prometheus_ws_proxy_clie.Base.{
  ◌≡◌, refl, true, false, some, ok, List, [], ◌∷◌, ◌++◌, OwnedString, codes, arith, inl, inr,
}
use prometheus_ws_proxy_clie.Protocol.Tests.{rfc_writer, exact}
use prometheus_ws_proxy_clie.Protocol.Length.{
  response_json_encoded_len, json_string_content_encoded_len, json_byte_len, decimal_digits,
}
use prometheus_ws_proxy_clie.Protocol.{validate}
use prometheus_ws_proxy_clie.Base.{decimal}
use prometheus_ws_proxy_clie.Protocol.Encoding.{response_json}
use prometheus_ws_proxy_clie.Memory.{max_ws_message_size}
use prometheus_ws_proxy_clie.Memory.Response.{BudgetedResponse}
use prometheus_ws_proxy_clie.Memory.Backed.{backed}
use prometheus_ws_proxy_clie.Memory.Tests.{six_of_ten, body_of_two}
use prometheus_ws_proxy_clie.Timing.{from_secs}
use prometheus_ws_proxy_clie.Delivery.Tests.{slow_lib, plain_context, six_of_hundred}
use prometheus_ws_proxy_clie.Session.{Session, Meanwhile, text, take_frames}
use prometheus_ws_proxy_clie.Session.Tests.{node_connection, idle_session, no_frames}
use prometheus_ws_proxy_clie.Session.Turn.{
  Connection, turn, shutdown, tick, completion, inbound, continues, run,
}
use prometheus_ws_proxy_clie.Session.Heartbeat.{Happening, Timed, clocked, next_due, next_inbound}
use prometheus_ws_proxy_clie.Session.Connect.{connection, run_connection}
use prometheus_ws_proxy_clie.Session.Lifetime.{Attempt, IsDone, run_attempts, run_attempts-IsDone}
use prometheus_ws_proxy_clie.Session.Stopped.{IsReturned, IsOver, run_connection-IsOver}
use prometheus_ws_proxy_clie.Session.Silent.{NoTimeout, silence-IsReturned, run-NoTimeout}
use prometheus_ws_proxy_clie.Session.Answered.{IsAnswer, answer, left, request-Answered}
use prometheus_ws_proxy_clie.Session.ConnectionTests.{open_network, from_str, rfc_grows}

abbrev one_frame : Meanwhile
one_frame = record { frames = 1; writer_returns = false }

-- A request, and the cancelled token.
abbrev asked_and_stopped : List Happening
asked_and_stopped =
    ((λ s b. (s, b)), inbound one_frame (some (ok (text (codes "{}")))))
    ∷ ((λ s b. (s, b)), shutdown)
    ∷ []

abbrev plain_connection : Connection
plain_connection =
    connection slow_lib open_network rfc_writer from_str plain_context (codes "worker-1")

asked-Sustained : Sustained plain_connection rfc_grows asked_and_stopped
asked-Sustained = record {
  supports = (
    (λ s b k. (k, tt, omega (arith, k.holds.1))),
    ((λ s b k. (k, tt, omega (arith, k.holds.1))), tt),
  );
  keeps = ((λ s b h. h), ((λ s b h. h), tt));
  moves = (inl (omega arith), (tt, tt));
}

run_connection-IsOver_example : IsOver (
    run_connection slow_lib open_network rfc_writer from_str plain_context
      (codes "worker-1")
      asked_and_stopped
      true
      six_of_ten)
run_connection-IsOver_example =
    run_connection-IsOver slow_lib open_network rfc_writer from_str rfc_grows plain_context
      (codes "worker-1") asked_and_stopped true six_of_ten asked-Sustained (inr (inl tt))
      (omega arith)

-- Three ticks in a silent minute.
abbrev silent_minute : List Timed
silent_minute =
    (from_secs 20, ((λ s b. (s, b)), tick 0))
    ∷ (from_secs 40, ((λ s b. (s, b)), tick 0))
    ∷ (from_secs 60, ((λ s b. (s, b)), tick 0))
    ∷ []

silence-IsReturned_example :
    IsReturned (run node_connection (clocked 0 silent_minute) idle_session six_of_ten)
unfolding clocked next_due
silence-IsReturned_example =
    silence-IsReturned node_connection rfc_grows (from_secs 1) 0 (from_secs 20) (from_secs 67)
      silent_minute idle_session six_of_ten
      (record {
        supports = (
          (λ s b k. (k, tt, omega (arith, k.holds.1))),
          (
            (λ s b k. (k, tt, omega (arith, k.holds.1))),
            ((λ s b k. (k, tt, omega (arith, k.holds.1))), tt),
          ),
        );
        keeps = ((λ s b h. h), ((λ s b h. h), ((λ s b h. h), tt)));
        moves = (tt, (tt, (tt, tt)));
      })
      (record { holds = (omega arith, omega arith); exact = tt })
      (record { control_bound = omega arith; bulk_bound = omega arith; busy_bound = omega arith })
      (tt, (tt, (tt, tt))) (omega arith, (omega arith, (omega arith, omega arith))) (omega arith)
      (omega arith)

-- A tick, an inbound frame, and two more ticks.
abbrev attended_minute : List Timed
attended_minute =
    (from_secs 20, ((λ s b. (s, b)), tick 0))
    ∷ (from_secs 30, ((λ s b. (s, b)), inbound one_frame (some (ok (text (codes "{}"))))))
    ∷ (from_secs 60, ((λ s b. (s, b)), tick 0))
    ∷ []

run-NoTimeout_example :
    NoTimeout (run node_connection (clocked 0 attended_minute) idle_session six_of_ten)
unfolding next_inbound
run-NoTimeout_example =
    run-NoTimeout node_connection 0 attended_minute idle_session six_of_ten
      (omega arith, (tt, (omega arith, tt)))

-- A response to `u1`, and its text.
abbrev found : BudgetedResponse
found = backed (exact (codes "u1")) 200 body_of_two

abbrev found_text : OwnedString
found_text = exact (codes "{\"type\":\"response\",\"uid\":\"u1\",\"body\":\"ok\",\"status\":200}")

found_text-IsAnswer :
    IsAnswer (response_json node_connection.writer) max_ws_message_size found found_text
unfolding response_json response_json_encoded_len decimal json_string_content_encoded_len
    json_byte_len decimal_digits
found_text-IsAnswer = record {
  written = refl;
  measured = refl;
  allocated = omega arith;
  in_limit = omega arith;
}

-- The session while the task of the request works.
abbrev working_session : Session
working_session = record idle_session {
  active_task = some (record { uid = exact (codes "u1"); resource = codes "node" });
}

request-Answered_example :
    run node_connection
      (((λ s b. (s, b)), inbound no_frames (some (ok (text (codes "{}")))))
        ∷ ((λ s b. (s, six_of_hundred)), completion no_frames (some (some found)) (ok tt))
        ∷ [])
      idle_session
      six_of_ten
    ≡ continues
        (record idle_session {
          bulk =
              (left no_frames found found_text working_session six_of_hundred).0
              ++ (answer found_text ∷ []);
        })
        (left no_frames found found_text working_session six_of_hundred).1
unfolding validate take_frames
request-Answered_example =
    request-Answered node_connection no_frames no_frames (codes "{}") (exact (codes "u1"))
      (exact (codes "node")) found found_text (λ s b. (s, six_of_hundred)) idle_session
      working_session six_of_ten six_of_hundred refl refl refl refl found_text-IsAnswer
      (record {
        at_work = refl;
        up = refl;
        sound = omega arith;
        budget_room = omega arith;
        queue_room = omega arith;
      })

-- The server closes the connection without a close frame; the token is cancelled in the next round.
abbrev dropped_then_stopped : List Attempt
dropped_then_stopped =
    record {
      round = record {
        cancelled_before = false;
        elapsed = from_secs 2;
        uuid = 7;
        cancelled_asleep = false;
      };
      others = λ b. b;
      events = (λ s b. (s, b), inbound one_frame none) ∷ [];
      flushes = false;
    }
    ∷ record {
      round = record {
        cancelled_before = false;
        elapsed = from_secs 90;
        uuid = 7;
        cancelled_asleep = true;
      };
      others = λ b. b;
      events = asked_and_stopped;
      flushes = true;
    }
    ∷ []

run_attempts-IsDone_example :
    IsDone slow_lib open_network rfc_writer from_str plain_context (codes "worker-1") (
      run_attempts slow_lib open_network rfc_writer from_str plain_context
        (codes "worker-1")
        dropped_then_stopped
        six_of_ten)
unfolding run turn
run_attempts-IsDone_example =
    run_attempts-IsDone slow_lib open_network rfc_writer from_str plain_context (codes "worker-1")
      rfc_grows dropped_then_stopped six_of_ten
      (
        record {
          sustained = record {
            supports = (λ s b k. (k, tt, omega (arith, k.holds.1)), tt);
            keeps = (λ s b h. h, tt);
            moves = (inl (omega arith), tt);
          };
          ending = λ s b. tt;
          keeps = λ b sound. sound;
        },
        (
          record {
            sustained = asked-Sustained;
            ending = λ s b.
                run-HasStopped plain_connection rfc_grows asked_and_stopped s b (inr (inl tt));
            keeps = λ b sound. sound;
          },
          tt,
        ),
      )
      (inr (inl (inr refl))) (omega arith)

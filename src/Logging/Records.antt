-- ===== src/Logging/Records.antt =====
-- What a session's file of events holds after any events and closes.
use poker_eye_v.Prelude.{◌≡◌, refl, String, true, false, Option, none, some, [], ◌∷◌, ◌++◌}
use poker_eye_v.Json.{str, Fields, end, field}
use poker_eye_v.Logging.{SessionLogger, record_of, line_text, is_empty, emit, close}

-- A logger that is closed for a reason writes "trainer.stopped" with it as its last record, and the
-- message as its last line of the operator; a second close changes nothing, and no event can be
-- emitted any more.
pub close-IsFinal :
    (l : SessionLogger) (ts reason message : String)
    → (l.closed ≡ false)
    → is_empty message ≡ false
    → (m : SessionLogger) × ((close l ts reason message ≡ some m)
        × ((m.records
              ≡ l.records
                ++ record_of l.run_id ts "trainer.stopped" "INFO" (field "reason" (str reason) end)
                  ∷ [])
            × ((m.operator
                  ≡ l.operator ++ record { ts = ts; severity = "INFO"; text = message } ∷ [])
                × (((ts' reason' message' : String) → close m ts' reason' message' ≡ some m)
                    × ((ts' event severity : String) (message' : Option String) (fields : Fields)
                        → emit m ts' event severity message' fields ≡ none)))))
unfolding close emit line_text
close-IsFinal l ts reason message opened text = (
  record {
    run_id = l.run_id;
    records =
        l.records
        ++ record_of l.run_id ts "trainer.stopped" "INFO" (field "reason" (str reason) end) ∷ [];
    operator = l.operator ++ record { ts = ts; severity = "INFO"; text = message } ∷ [];
    closed = true;
  },
  (rw (opened, text) refl, (refl, (refl, (λ a b c. refl, λ a b c d e. refl)))),
)

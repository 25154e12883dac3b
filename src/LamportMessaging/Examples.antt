-- ===== src/LamportMessaging/Examples.antt =====
-- A schedule of main, and its theorem at the end of it.
use chrono.Prelude.{◌≤◌, ◌≡◌, ◌⊎◌, refl, true, [], ◌∷◌, ◌++◌}
use chrono.Prelude.Strings.{Str}
use chrono.Lamport.{new, tick, send, receive}
use chrono.LamportMessaging.{
  Main, started, add_event, tick_left, tick_right, record_left, record_right, send_left, send_right,
  receive_left, receive_right, step_left, step_right, is_finished, sorted_events,
}
use chrono.LamportMessaging.Schedules.{
  Step, left_step, right_step, Run, begin, step, output, schedule_output,
}

-- %q of a text without a character that it escapes.
abbrev quotes : Str → Str
quotes text = b'"' ∷ (text ++ (b'"' ∷ []))

-- Process B waits until A has sent, and its reply is received before it is recorded.
schedule : (t : Main) × Run quotes 12 t
unfolding started step_left step_right tick_left tick_right add_event record_left record_right
    send_left send_right receive_left receive_right new tick send receive
schedule = (
  _,
  step
      (step
        (step
          (step
            (step
              (step
                (step
                  (step
                    (step
                      (step (step (step (begin) (left_step refl)) (right_step refl))
                        (left_step refl))
                      (left_step refl))
                    (right_step refl))
                  (left_step refl))
                (right_step refl))
              (right_step refl))
            (left_step refl))
          (right_step refl))
        (left_step refl))
      (left_step refl),
)

schedule_output_example :
    (12 ≤ 12)
    × (((is_finished schedule.0 ≡ true) × (sorted_events schedule.0 ≡ output quotes))
        ⊎ ((u : Main) × Step quotes schedule.0 u))
schedule_output_example = schedule_output quotes 12 schedule.0 schedule.1

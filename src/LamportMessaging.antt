-- ===== src/LamportMessaging.antt =====
-- examples/lamport_messaging/main.go: two goroutines that exchange two messages over buffered
-- channels and record their events in a list that they share. A step is what one goroutine does
-- between two accesses to something shared: the list, which a mutex guards, or a channel. The clocks
-- and the variables are the goroutine's own. `quoted` is the verb %q of fmt.Sprintf.
pub mod Texts
pub mod Schedules
mod Examples
use chrono.Prelude.{
  ℕ, ◌+◌, Bool, true, false, Option, none, some, List, [], ◌∷◌, ◌++◌, ◌==◌, ◌&&◌, not, ltb,
  if◌then◌else◌, length,
}
use chrono.Prelude.Strings.{Str, str_lt}
use chrono.Prelude.Sort.{sort_stable}
use chrono.Lamport.{Clock, new, tick, send, receive}
use chrono.LamportMessaging.Texts.{
  a, b, tick_kind, send_kind, recv_kind, hello, world, loading_config, init_complete, hello_to_b,
  from_b, shutting_down, warming_up, from_a, world_to_a,
}

pub record Message : Type 0 where
  pub from : Str
  pub text : Str
  pub stamp : ℕ

pub record Event : Type 0 where
  pub process : Str
  pub kind : Str
  pub detail : Str
  pub stamp : ℕ

-- The next step of process A, and of process B.
pub data LeftPoint : Type 0 where
  loads inits sends records_send awaits records_receipt shuts_down left_done : LeftPoint

pub data RightPoint : Type 0 where
  warms_up awaits_hello records_hello replies records_reply right_done : RightPoint

-- A goroutine: where it is, its clock, the text of the message that it received last, and the stamp
-- in `s` or `ts`.
pub record Process (Point : Type 0) : Type 0 where
  pub at : Point
  pub clock : Clock
  pub text : Str
  pub stamp : ℕ

pub record Main : Type 0 where
  pub left : Process LeftPoint
  pub right : Process RightPoint
  pub a_to_b : List Message
  pub b_to_a : List Message
  pub events : List Event

abbrev pub fresh : {Point : Type 0} → Point → Process Point
unfolding new
fresh point = record { at = point; clock = new; text = []; stamp = 0 }

-- Before the two goroutines run.
unfoldable pub started : Main
started = record {
  left = fresh loads;
  right = fresh warms_up;
  a_to_b = [];
  b_to_a = [];
  events = [];
}

-- `record(e)`
unfoldable pub add_event : Main → Event → Main
add_event m e = record m { events = m.events ++ (e ∷ []) }

-- `record(event{process, "tick", detail, c.Tick()})` of process A, and of process B.
unfoldable pub tick_left : LeftPoint → Main → Str → Main
unfolding add_event tick
tick_left next m detail =
    let (c, n) = tick m.left.clock in
    record (add_event m (record { process = a; kind = tick_kind; detail = detail; stamp = n })) {
      left = record m.left { at = next; clock = c };
    }

unfoldable pub tick_right : RightPoint → Main → Str → Main
unfolding add_event tick
tick_right next m detail =
    let (c, n) = tick m.right.clock in
    record (add_event m (record { process = b; kind = tick_kind; detail = detail; stamp = n })) {
      right = record m.right { at = next; clock = c };
    }

-- Records an event whose stamp the goroutine has in a variable.
unfoldable pub record_left : LeftPoint → Main → Str → Str → Main
unfolding add_event
record_left next m kind detail =
    record (add_event m
      (record { process = a; kind = kind; detail = detail; stamp = m.left.stamp })) {
        left = record m.left { at = next };
      }

unfoldable pub record_right : RightPoint → Main → Str → Str → Main
unfolding add_event
record_right next m kind detail =
    record (add_event m
      (record { process = b; kind = kind; detail = detail; stamp = m.right.stamp })) {
        right = record m.right { at = next };
      }

-- `s := c.Send()` and the send on the channel of capacity 1, or `none` while it is full.
unfoldable pub send_left : Main → Option Main
unfolding send
send_left m =
    let (c, s) = send m.left.clock in
    if ltb (length m.a_to_b) 1
    then some (record m {
      left = record m.left { at = records_send; clock = c; stamp = s };
      a_to_b = m.a_to_b ++ (record { from = a; text = hello; stamp = s } ∷ []);
    })
    else none

-- The same on the channel of capacity 2.
unfoldable pub send_right : Main → Option Main
unfolding send
send_right m =
    let (c, s) = send m.right.clock in
    if ltb (length m.b_to_a) 2
    then some (record m {
      right = record m.right { at = records_reply; clock = c; stamp = s };
      b_to_a = m.b_to_a ++ (record { from = b; text = world; stamp = s } ∷ []);
    })
    else none

-- `m := <-bToA` and `ts := c.Receive(m.stamp)`, or `none` while the channel is empty.
unfoldable pub receive_left : LeftPoint → Main → List Message → Option Main
unfolding receive
receive_left next m [] = none
receive_left next m (msg ∷ rest) =
    let (c, ts) = receive m.left.clock msg.stamp in
    some (record m {
      left = record { at = next; clock = c; text = msg.text; stamp = ts };
      b_to_a = rest;
    })

unfoldable pub receive_right : RightPoint → Main → List Message → Option Main
unfolding receive
receive_right next m [] = none
receive_right next m (msg ∷ rest) =
    let (c, ts) = receive m.right.clock msg.stamp in
    some (record m {
      right = record { at = next; clock = c; text = msg.text; stamp = ts };
      a_to_b = rest;
    })

module _ (quoted : Str → Str) where
  -- The next step of process A: `none` while it waits for a channel, and once it is done.
  unfoldable pub step_left : LeftPoint → Main → Option Main
  unfolding tick_left record_left send_left receive_left
  step_left loads m = some (tick_left inits m loading_config)
  step_left inits m = some (tick_left sends m init_complete)
  step_left sends m = send_left m
  step_left records_send m = some (record_left awaits m send_kind hello_to_b)
  step_left awaits m = receive_left records_receipt m m.b_to_a
  step_left records_receipt m =
      some (record_left shuts_down m recv_kind (quoted m.left.text ++ from_b))
  step_left shuts_down m = some (tick_left left_done m shutting_down)
  step_left left_done m = none

  -- The next step of process B.
  unfoldable pub step_right : RightPoint → Main → Option Main
  unfolding tick_right record_right send_right receive_right
  step_right warms_up m = some (tick_right awaits_hello m warming_up)
  step_right awaits_hello m = receive_right records_hello m m.a_to_b
  step_right records_hello m =
      some (record_right replies m recv_kind (quoted m.right.text ++ from_a))
  step_right replies m = send_right m
  step_right records_reply m = some (record_right right_done m send_kind world_to_a)
  step_right right_done m = none

abbrev pub is_left_done : LeftPoint → Bool
is_left_done left_done = true
is_left_done _ = false

abbrev pub is_right_done : RightPoint → Bool
is_right_done right_done = true
is_right_done _ = false

-- What `wg.Wait()` waits for.
unfoldable pub is_finished : Main → Bool
is_finished m = is_left_done m.left.at && is_right_done m.right.at

unfoldable pub event_less : Event → Event → Bool
event_less e f =
    if not (e.stamp == f.stamp) then ltb e.stamp f.stamp else str_lt e.process f.process

-- The events as main prints them.
unfoldable pub sorted_events : Main → List Event
sorted_events m = sort_stable event_less m.events

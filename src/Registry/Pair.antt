-- ===== src/Registry/Pair.antt =====
-- The pairing event of the process in susensors.c: the observations that a new pair registers, and
-- the notification callbacks that run a device's handlers.
use contiki_device_link.Common.{
  ℕ, zero, suc, ◌≡◌, refl, ap, ◌∙◌, Bool, true, false, List, [], ◌∷◌, ◌++◌, Option, none, some,
  if◌then◌else◌, ◌≢◌, map, arith,
}
use contiki_device_link.Common.Int.{ℤ, pos, negsuc}
use contiki_device_link.Sensor.{Action, Driver, relay, led, pulse, mains, button, JoinPair, Sensor}
use contiki_device_link.Device.{Device, Gpio, get_function_ptr, set_eventhandlers, action_of}
use contiki_device_link.Device.Relay.{value, run_handler}

abbrev pub filter : {A : Type 0} → (A → Bool) → List A → List A
filter p [] = []
filter p (x ∷ xs) = if p x then x ∷ filter p xs else filter p xs

-- enum su_basic_events, an index in `triggers`
pub data Kind : Type 0 where
  above_event below_event change_event : Kind

abbrev trigger_at : List ℤ → ℕ → ℤ
trigger_at [] i = negsuc 0
trigger_at (t ∷ ts) zero = t
trigger_at (t ∷ ts) (suc i) = trigger_at ts i

-- `triggers[kind]`
abbrev pub trigger : JoinPair → Kind → ℤ
trigger p above_event = trigger_at p.triggers 0
trigger p below_event = trigger_at p.triggers 1
trigger p change_event = trigger_at p.triggers 2

abbrev pub url_of : JoinPair → Kind → Option (List ℕ)
url_of p above_event = p.dsturl_above
url_of p below_event = p.dsturl_below
url_of p change_event = p.dsturl_change

-- one call of `coap_obs_request_registration`, with the callback's kind
pub record Registration : Type 0 where
  pub destip : List ℕ
  pub url : Option (List ℕ)
  pub callback : Kind

-- `triggers[kind] != -1`
abbrev pub is_used : ℤ → Bool
is_used (pos n) = true
is_used (negsuc zero) = false
is_used (negsuc (suc n)) = true

unfoldable pub register : JoinPair → Kind → List Registration
register p kind =
    if is_used (trigger p kind)
    then record { destip = p.destip; url = url_of p kind; callback = kind } ∷ []
    else []

-- the pointer `setEventhandlers` of a device: the inputs have none
abbrev has_eventhandlers : Driver → Bool
has_eventhandlers relay = true
has_eventhandlers led = true
has_eventhandlers pulse = false
has_eventhandlers mains = false
has_eventhandlers button = false

-- the process's branch for `susensors_pair`
unfoldable pub susensors_pair : Sensor → JoinPair → Sensor × List Registration
unfolding register
susensors_pair this p = (
  (if has_eventhandlers this.driver
      then set_eventhandlers this (trigger p above_event) (trigger p below_event)
          (trigger p change_event)
      else this),
  register p above_event ++ (register p below_event ++ register p change_event),
)

abbrev pub handler_of : Sensor → Kind → Option Action
handler_of s above_event = s.above_eventhandler
handler_of s below_event = s.below_eventhandler
handler_of s change_event = s.change_eventhandler

-- coap_notification_flag_t
pub data Flag : Type 0 where
  notification_ok observe_ok observe_not_supported error_response_code no_reply_from_server : Flag

module _ (g : Gpio) where
  -- `above_notificationcb` and its like, for a relay: the handler of a NULL pointer is not run, and
  -- every other flag is only printed.
  unfoldable pub notificationcb : Kind → Device g.State → Flag → Device g.State
  unfolding run_handler
  notificationcb kind d notification_ok = run_handler g d (handler_of d.sensor kind)
  notificationcb kind d observe_ok = d
  notificationcb kind d observe_not_supported = d
  notificationcb kind d error_response_code = d
  notificationcb kind d no_reply_from_server = d

  -- a relay after its pair was registered
  abbrev pub paired : Device g.State → JoinPair → Device g.State
  paired d p = record d { sensor = (susensors_pair d.sensor p).0 }

  -- what `value` does with a trigger that is an action, and nothing for another trigger
  abbrev pub triggered : Device g.State → ℤ → Device g.State
  triggered d t = elim (action_of t) [ none ↦ d | some a ↦ (value g d t).1 ]

  handled : (d : Device g.State) (t : ℤ) → run_handler g d (get_function_ptr t) ≡ triggered d t
  unfolding run_handler
  handled d (negsuc n) = refl
  handled d (pos zero) = refl
  handled d (pos (suc zero)) = refl
  handled d (pos (suc (suc zero))) = refl
  handled d (pos (suc (suc (suc n)))) = refl

  handler-paired :
      (s : Sensor) (p : JoinPair) (kind : Kind)
      → s.driver ≡ relay
      → handler_of ((susensors_pair s p).0) kind ≡ get_function_ptr (trigger p kind)
  unfolding susensors_pair set_eventhandlers
  handler-paired s p above_event drives = rw drives refl
  handler-paired s p below_event drives = rw drives refl
  handler-paired s p change_event drives = rw drives refl

  -- For a relay with a new pair, a notification of a kind does what `value` does with the pair's trigger
  -- of that kind if the trigger is an action, and nothing if it is none; a callback with another
  -- flag than OK does nothing.
  pub notificationcb-paired :
      (d : Device g.State) (p : JoinPair) (kind : Kind)
      → d.sensor.driver ≡ relay
      → let e = paired d p in
        (notificationcb kind e notification_ok ≡ triggered e (trigger p kind))
        × ((flag : Flag) → flag ≢ notification_ok → notificationcb kind e flag ≡ e)
  unfolding notificationcb
  notificationcb-paired d p kind drives = (
    ap (run_handler g (paired d p)) (handler-paired d.sensor p kind drives)
        ∙ handled (paired d p) (trigger p kind),
    ignored,
  )
    where
      ignored :
          (flag : Flag)
          → flag ≢ notification_ok
          → notificationcb kind (paired d p) flag ≡ paired d p
      ignored notification_ok other = absurd (other refl)
      ignored observe_ok other = refl
      ignored observe_not_supported other = refl
      ignored error_response_code other = refl
      ignored no_reply_from_server other = refl

-- A new pair registers an observation of a kind exactly if its trigger of that kind is not -1: at
-- the pair's address, at its URL of the kind, above before below before change.
pub registered-susensors_pair :
    (s : Sensor) (p : JoinPair)
    → (susensors_pair s p).1
      ≡ map
          (λ kind. record { destip = p.destip; url = url_of p kind; callback = kind })
          (filter
            (λ kind. is_used (trigger p kind))
            (above_event ∷ below_event ∷ change_event ∷ []))
unfolding susensors_pair register
registered-susensors_pair s p = ground arith

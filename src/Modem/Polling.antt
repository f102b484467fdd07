-- ===== src/Modem/Polling.antt =====
-- server/src/lte.rs: how the poller adapts the load of its commands to the disruptions that it
-- sees. Of a round of `spawn_lte_poller`, the model has what it does to this state; instants and
-- ages are milliseconds.
use sctl.Prelude.{
  ℕ, ◌≡◌, refl, Bool, true, false, not, ◌&&◌, ◌||◌, List, [], ◌∷◌, leb, ltb, if◌then◌else◌, add_u32,
  arith,
}

pub data AtPollMode : Type 0 where
  full gentle cautious suppressed : AtPollMode

pub record AtPollingHealth : Type 0 where
  pub mode : AtPollMode
  pub consecutive_ok : ℕ
  pub cautious_disruptions : ℕ

unfoldable pub new : AtPollingHealth
new = record { mode = full; consecutive_ok = 0; cautious_disruptions = 0 }

abbrev ok_in : AtPollMode → AtPollingHealth → AtPollingHealth
ok_in cautious h =
    if leb 5 h.consecutive_ok
    then record { mode = gentle; consecutive_ok = 0; cautious_disruptions = 0 }
    else h
ok_in full h = h
ok_in gentle h = h
ok_in suppressed h = h

unfoldable pub record_ok : AtPollingHealth → AtPollingHealth
record_ok h = ok_in h.mode (record h { consecutive_ok = add_u32 h.consecutive_ok 1 })

abbrev disrupted_in : AtPollMode → AtPollingHealth → AtPollingHealth
disrupted_in gentle h = record h { mode = cautious }
disrupted_in cautious h =
    let count = add_u32 h.cautious_disruptions 1 in
    if leb 2 count
    then record h { mode = suppressed; cautious_disruptions = count }
    else record h { cautious_disruptions = count }
disrupted_in full h = h
disrupted_in suppressed h = h

unfoldable pub record_disruption : AtPollingHealth → AtPollingHealth
record_disruption h = disrupted_in h.mode (record h { consecutive_ok = 0 })

abbrev active_mode : AtPollMode → AtPollMode
active_mode suppressed = suppressed
active_mode full = gentle
active_mode gentle = gentle
active_mode cautious = cautious

-- The mode of the next poll.
unfoldable pub poll_mode : Bool → AtPollingHealth → AtPollMode
poll_mode data_active h = if data_active then active_mode h.mode else full

-- What a round sees: the data path at its start, whether the commands were answered, the tunnel
-- before and after them, and in the suppressed mode the data path at the end.
pub record Poll : Type 0 where
  pub data_active : Bool
  pub answered : Bool
  pub pre_connected : Bool
  pub post_connected : Bool
  pub pre_pong : ℕ
  pub post_pong : ℕ
  pub still_active : Bool

abbrev is_disrupted : Poll → Bool
is_disrupted p =
    (p.pre_connected && not p.post_connected) || (ltb p.pre_pong 5000 && ltb 10000 p.post_pong)

abbrev after_answers : Poll → AtPollingHealth → AtPollingHealth
after_answers p h =
    if p.data_active then record_ok (if is_disrupted p then record_disruption h else h) else h

abbrev round_in : AtPollMode → Poll → AtPollingHealth → AtPollingHealth
round_in suppressed p h =
    if p.still_active
    then h
    else record { mode = full; consecutive_ok = 0; cautious_disruptions = 0 }
round_in full p h = if p.answered then after_answers p h else h
round_in gentle p h = if p.answered then after_answers p h else h
round_in cautious p h = if p.answered then after_answers p h else h

unfoldable pub round : Poll → AtPollingHealth → AtPollingHealth
unfolding record_ok record_disruption poll_mode
round p h = round_in (poll_mode p.data_active h) p h

unfoldable pub rounds : List Poll → AtPollingHealth → AtPollingHealth
unfolding round
rounds [] h = h
rounds (p ∷ ps) h = rounds ps (round p h)

round-full : (p : Poll) (h : AtPollingHealth) → h.mode ≡ full → (round p h).mode ≡ full
unfolding round
round-full p h e = ground arith

rounds-full : (ps : List Poll) (h : AtPollingHealth) → h.mode ≡ full → (rounds ps h).mode ≡ full
unfolding rounds
rounds-full [] h e = e
rounds-full (p ∷ ps) h e = rounds-full ps (round p h) (round-full p h e)

-- Whatever the rounds see, disruptions included, the poller never becomes cautious nor suppressed:
-- with an active data path every poll is a gentle one, and without one a full one.
pub poll_mode-constant :
    (ps : List Poll) (data_active : Bool)
    → poll_mode data_active (rounds ps new) ≡ (if data_active then gentle else full)
unfolding poll_mode new
poll_mode-constant ps true = ground (arith, rounds-full ps new)
poll_mode-constant ps false = refl

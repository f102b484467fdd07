-- ===== src/Tunnel/Replacing.antt =====
-- server/src/tunnel/relay.rs: what happens when a device connects again before its old connection
-- has ended.
use sctl.Prelude.{
  ℕ, ◌≡◌, ◌≢◌, refl, ap, ◌∙◌, Bool, true, false, ◌||◌, List, [], ◌∷◌, ◌++◌, Option, none, some,
  String, string_eq, eq_iff, arith, if◌then◌else◌, if-cases, pop_front, length, leb,
}
use sctl.Prelude.Map.{lookup, lookup-insert_self}
use sctl.Tunnel.History.{
  ConnectionSession, opened, closed, close_last, record_connect, record_disconnect,
  max_connection_history,
}
use sctl.Tunnel.Registry.{RelayState, new_device, register, end_handler, is_newer, Answer}

close_last-append :
    (serial reason : String) (age : Option ℕ) (now t : ℕ) (ss : List ConnectionSession)
    → close_last serial reason age now (ss ++ (opened serial t ∷ []))
      ≡ (ss ++ (closed reason age now (opened serial t) ∷ []), true)
unfolding close_last
close_last-append serial reason age now t [] = ground (arith, eq_iff serial serial)
close_last-append serial reason age now t (s ∷ ss) =
    let found = close_last-append serial reason age now t ss in rw found refl

end-replaced :
    (st : RelayState) (serial : String) (id : ℕ) (told : Bool) (reason : String) (now_ms now : ℕ)
    → is_newer id (lookup serial st.devices) ≡ true
    → end_handler st serial id told reason now_ms now
      ≡ (record st { history = record_disconnect st.history serial "replaced" none now }, [])
unfolding end_handler
end-replaced st serial id told reason now_ms now h =
    if-cases
      (λ (r : RelayState × List Answer).
        r ≡ (record st { history = record_disconnect st.history serial "replaced" none now }, []))
      (told || is_newer id (lookup serial st.devices)) (λ _. refl)
      (λ e. absurd (never told (is_newer id (lookup serial st.devices)) h e))
  where
    never : (a b : Bool) → b ≡ true → (a || b) ≡ false → ⊥
    never a b h e = ground (arith, h, e)

-- The handler that has been replaced, after the device has registered again.
abbrev pub old_ends :
    RelayState → String → String → ℕ → ℕ → ℕ → Bool → String → ℕ → ℕ → RelayState × List Answer
old_ends st serial key at_ms at old told reason now_ms now =
    end_handler (register st serial key at_ms at).0 serial old told reason now_ms now

sees_newer :
    (st : RelayState) (serial key : String) (at_ms at old : ℕ)
    → old ≢ st.next_connection_id
    → is_newer old (lookup serial (register st serial key at_ms at).0.devices) ≡ true
unfolding register
sees_newer st serial key at_ms at old other =
    ap (is_newer old)
      (lookup-insert_self serial (new_device st.next_connection_id key at_ms) st.devices)
    ∙ ground (arith, other)

module _ (st : RelayState) (serial key : String) (at_ms at old : ℕ) (told : Bool) (reason : String)
    (now_ms now : ℕ) (other : old ≢ st.next_connection_id) where
  ends : old_ends st serial key at_ms at old told reason now_ms now ≡ (
    record ((register st serial key at_ms at).0) {
      history =
          record_disconnect (register st serial key at_ms at).0.history serial "replaced" none now;
    },
    [],
  )
  ends =
      end-replaced (register st serial key at_ms at).0 serial old told reason now_ms now
        (sees_newer st serial key at_ms at old other)

  -- The end of an older connection leaves the device that has registered again in place, with no
  -- answer to any caller, whether or not the older handler was told to shut down.
  pub newer-stays :
      (lookup serial (old_ends st serial key at_ms at old told reason now_ms now).0.devices
        ≡ some (new_device st.next_connection_id key at_ms))
      × ((old_ends st serial key at_ms at old told reason now_ms now).1 ≡ [])
  unfolding register
  newer-stays = (
    ap (λ r. lookup serial r.0.devices) ends
        ∙ lookup-insert_self serial (new_device st.next_connection_id key at_ms) st.devices,
    ap (λ r. r.1) ends,
  )

  -- But in the history it closes the session of the newer connection, as replaced, and the session
  -- of the older one stays as it was.
  pub newer-closed :
      (old_ends st serial key at_ms at old told reason now_ms now).0.history
      ≡ (if leb max_connection_history (length st.history)
          then pop_front st.history
          else st.history)
        ++ (closed "replaced" none now (opened serial at) ∷ [])
  unfolding register record_connect record_disconnect
  newer-closed =
      ap (λ r. r.0.history) ends
      ∙ ap (λ r. r.0)
          (close_last-append serial "replaced" none now at (
            if leb max_connection_history (length st.history)
            then pop_front st.history
            else st.history))

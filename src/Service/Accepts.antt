-- ===== src/Service/Accepts.antt =====
-- The service accepts every signal of the listening thread.
use glogi_k.Prelude.{
  ℕ, ◌≤◌, Bool, true, false, not, ◌&&◌, List, [], ◌∷◌, map, Option, some, ◌≡◌, refl, arith, ◌==◌,
  if◌then◌else◌, subst, sym, find, find-assign, is_some, All, All-append,
}
use glogi_k.Types.{Macro, mkeyid_max}
use glogi_k.UsbDevice.{
  Output, feature_report, device_mbank_switch, device_macro_recorded, device_macro_cleared,
  device_gkey_event, device_media_event,
}
use glogi_k.Banks.{
  Banks, BanksMap, GKeysEvent, find_event, assign_event, gkeys_event, reset_event, is_empty,
}
use glogi_k.KeyEvents.{Action, run_gkeys_event, run_event}
use glogi_k.KeyEvents.Macros.{
  set_macro-assign_event, clear_macro-assign_event, find_event-assign_event,
}
use glogi_k.KeyboardDriver.Listen.Total.{IsGKey}
use glogi_k.KeyboardDriver.Listen.{Listener, Input, run}
use glogi_k.KeyboardDriver.Listen.Invariant.{Storable, Sound}
use glogi_k.KeyboardDriver.Listen.Run.{run-Sound}
use glogi_k.Service.{
  Service, Effect, act, save_device_configuration_file, do_device_fake_key_event, log_failure,
  set_current_bank_id, set_banks, put_device, set_device_current_bank_id, or_log, mbank_switch,
  macro_recorded, macro_cleared, gkey_event, handle_signal, receive, receive_all,
}

-- Every bank of the device has an event for every G-key, and the current bank is one of them.
pub record Full (banks : Banks) : Type 0 where
  pub has_event :
      (b k : ℕ)
      → b ≤ mkeyid_max
      → IsGKey k
      → (e : GKeysEvent) × (find_event banks.gkeys_banks b k ≡ some e)
  pub current : banks.current_bank_id ≤ mkeyid_max

-- The client is registered, its session is active and the device is started.
pub record Ready (id : ℕ) (s : Service) : Type 0 where
  pub banks : Banks
  pub started : find id s.started_devices ≡ some banks
  pub full : Full banks
  pub registered : s.register_status ≡ true
  pub active : s.session_is_active ≡ true

-- No failure is logged.
abbrev pub IsSuccess : Effect → Type 0
IsSuccess (act action) = Unit
IsSuccess (save_device_configuration_file id) = Unit
IsSuccess (do_device_fake_key_event id event) = Unit
IsSuccess log_failure = ⊥

-- What every handler of a signal keeps.
Accepted : ℕ → Option (Service × List Effect) → Type 0
Accepted id o = (r : Service × List Effect) × (o ≡ some r) × Ready id r.0 × All IsSuccess r.1

put_device-Ready :
    (id : ℕ) (banks : Banks) (s : Service)
    → Ready id s
    → Full banks
    → Ready id (put_device id banks s)
unfolding put_device is_some
put_device-Ready id banks s h full = record {
  banks = banks;
  started = ground (arith, find-assign id id banks s.started_devices, h.started);
  full = full;
  registered = h.registered;
  active = h.active;
}

mbank_switch-Accepted :
    (id bank : ℕ) (s : Service)
    → bank ≤ mkeyid_max
    → Ready id s
    → Accepted id (mbank_switch id bank s)
unfolding mbank_switch set_device_current_bank_id Accepted set_current_bank_id
mbank_switch-Accepted id bank s le h =
    let banks = set_current_bank_id bank h.banks in
    (
      (put_device id banks s, []),
      ground (arith, h.started),
      put_device-Ready id banks s h (record { has_event = h.full.has_event; current = le }),
      tt,
    )

-- Another event on one key leaves an event on every key.
assign_event-Full :
    (banks : Banks) (b k : ℕ) (e₀ e : GKeysEvent)
    → find_event banks.gkeys_banks b k ≡ some e₀
    → Full banks
    → Full (set_banks (assign_event banks.gkeys_banks b k e) banks)
unfolding set_banks
assign_event-Full banks b k e₀ e h full = record {
  has_event = λ b' k' le known.
      let (e', p) = full.has_event b' k' le known in
      (
        if b == b' && k == k' then e else e',
        ground (arith, p, find_event-assign_event banks.gkeys_banks b k b' k' e e₀ h),
      );
  current = full.current;
}

Full-set_banks : (banks : Banks) → Full banks → Full (set_banks banks.gkeys_banks banks)
unfolding set_banks
Full-set_banks banks h = record { has_event = h.has_event; current = h.current }

if-Full :
    (banks : Banks) (b : Bool) (x y : BanksMap)
    → Full (set_banks x banks)
    → Full (set_banks y banks)
    → Full (set_banks (if b then x else y) banks)
if-Full banks true x y hx hy = hx
if-Full banks false x y hx hy = hy

macro_recorded-Accepted :
    (id k : ℕ) (macro : Macro) (s : Service)
    → IsGKey k
    → Ready id s
    → Accepted id (macro_recorded id k macro s)
unfolding macro_recorded Accepted
macro_recorded-Accepted id k macro s known h =
    let banks = h.banks in
    let (e₀, p) = h.full.has_event banks.current_bank_id k h.full.current known in
    let (m, _, _, e) =
      set_macro-assign_event banks.gkeys_banks macro banks.current_bank_id k e₀ (ground arith) p in
    let kept = assign_event banks.gkeys_banks banks.current_bank_id k (gkeys_event m) in
    (
      (put_device id (set_banks kept banks) s, save_device_configuration_file id ∷ []),
      ground (arith, h.started, e),
      put_device-Ready id (set_banks kept banks) s h
          (assign_event-Full banks banks.current_bank_id k e₀ (gkeys_event m) p h.full),
      (tt, tt),
    )

macro_cleared-Accepted :
    (id k : ℕ) (s : Service) → IsGKey k → Ready id s → Accepted id (macro_cleared id k s)
unfolding macro_cleared Accepted
macro_cleared-Accepted id k s known h =
    let banks = h.banks in
    let b : ℕ = banks.current_bank_id in
    let (e₀, p) = h.full.has_event b k h.full.current known in
    let e = clear_macro-assign_event banks.gkeys_banks b k e₀ (ground arith) p in
    let cleared = not (is_empty e₀.macro) in
    let kept =
      if is_empty e₀.macro
      then banks.gkeys_banks
      else assign_event banks.gkeys_banks b k (reset_event e₀) in
    (
      (
        put_device id (set_banks kept banks) s,
        if cleared then save_device_configuration_file id ∷ [] else [],
      ),
      ground (arith, h.started, e),
      put_device-Ready id (set_banks kept banks) s h (
          if-Full banks (is_empty e₀.macro) banks.gkeys_banks _ (Full-set_banks banks h.full)
            (assign_event-Full banks b k e₀ (reset_event e₀) p h.full)),
      ground arith,
    )

map-IsSuccess : (actions : List Action) → All IsSuccess (map act actions)
map-IsSuccess [] = tt
map-IsSuccess (x ∷ xs) = (tt, map-IsSuccess xs)

gkey_event-Accepted :
    (search_path : List ℕ → Option (List ℕ)) (id k : ℕ) (s : Service)
    → IsGKey k
    → Ready id s
    → Accepted id (gkey_event search_path id k s)
unfolding gkey_event Accepted run_event
gkey_event-Accepted search_path id k s known h =
    let banks = h.banks in
    let (e₀, p) = h.full.has_event banks.current_bank_id k h.full.current known in
    let actions = run_gkeys_event search_path e₀ in
    ((s, map act actions), ground (arith, h.started, p), h, map-IsSuccess actions)

handle_signal-Accepted :
    (search_path : List ℕ → Option (List ℕ)) (id : ℕ) (o : Output) (s : Service)
    → Storable o
    → Ready id s
    → Accepted id (handle_signal search_path id o s)
unfolding handle_signal Accepted
handle_signal-Accepted search_path id (feature_report report) s h r = ((s, []), refl, r, tt)
handle_signal-Accepted search_path id (device_mbank_switch bank) s h r =
    mbank_switch-Accepted id bank s h r
handle_signal-Accepted search_path id (device_macro_recorded k macro) s h r =
    macro_recorded-Accepted id k macro s h.0 r
handle_signal-Accepted search_path id (device_macro_cleared k) s h r =
    macro_cleared-Accepted id k s h r
handle_signal-Accepted search_path id (device_gkey_event k) s h r =
    gkey_event-Accepted search_path id k s h r
handle_signal-Accepted search_path id (device_media_event event) s h r =
    ((s, do_device_fake_key_event id event ∷ []), refl, r, (tt, tt))

receive-Ready :
    (search_path : List ℕ → Option (List ℕ)) (id : ℕ) (o : Output) (s : Service)
    → Storable o
    → Ready id s
    → Ready id (receive search_path id o s).0 × All IsSuccess (receive search_path id o s).1
unfolding receive or_log Accepted
receive-Ready search_path id o s h r =
    let (r', e, ready, good) = handle_signal-Accepted search_path id o s h r in
    let received : receive search_path id o s ≡ r' = ground (arith, r.registered, r.active, e) in
    subst (λ (x : Service × List Effect). Ready id x.0 × All IsSuccess x.1) (sym received)
      (ready, good)

receive_all-Ready :
    (search_path : List ℕ → Option (List ℕ)) (id : ℕ) (os : List Output) (s : Service)
    → All Storable os
    → Ready id s
    → Ready id (receive_all search_path id os s).0
      × All IsSuccess (receive_all search_path id os s).1
unfolding receive_all
receive_all-Ready search_path id [] s h r = (r, tt)
receive_all-Ready search_path id (o ∷ os) s h r =
    let (ready, good) = receive-Ready search_path id o s h.0 r in
    let rest = receive_all-Ready search_path id os (receive search_path id o s).0 h.1 ready in
    (rest.0, All-append IsSuccess _ _ good rest.1)

-- From a sound state of the listening thread and a service that is ready for the device, whatever
-- happens in the listening thread, the service handles every signal that was sent without a
-- failure: it finds the bank and the G-key, a recorded macro is short enough, and afterwards every
-- bank still has an event for every G-key.
pub run-receive_all :
    (search_path : List ℕ → Option (List ℕ)) (id : ℕ) (l : Listener) (is : List Input) (s : Service)
    → Sound l
    → Ready id s
    → (l' : Listener) × (run l is ≡ some l')
      × Ready id (receive_all search_path id l'.sent s).0
      × All IsSuccess (receive_all search_path id l'.sent s).1
run-receive_all search_path id l is s h r =
    let (l', e, sound) = run-Sound l is h in
    let (ready, good) = receive_all-Ready search_path id l'.sent s sound.storable r in
    (l', e, ready, good)

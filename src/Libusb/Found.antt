-- ===== src/Libusb/Found.antt =====
-- What it means that findUSBDeviceInterface returns.
use glogi_k.Prelude.{ℕ, Bool, true, false, List, [], ◌∷◌, ◌++◌, ◌≡◌, refl, arith, ◌==◌, ap, ◌∙◌}
use glogi_k.Libusb.{
  Call, claim_interface, Libusb, UsbId, UsbDevice, Endpoint, and_then, call, push_to_attach,
  note_endpoint, push_to_release,
}
use glogi_k.Libusb.Held.{is_in, claim_step, claimed}
use glogi_k.Libusb.Matches.{gives_back, Kept}

-- The interface is claimed: libusb was asked for it with success and not asked to release it since, and
-- it is noted for release.
pub record Claimed (id : UsbId) (d : UsbDevice) : Type 0 where
  pub same : d.id ≡ id
  pub held : is_in id.binterface_number (claimed d.calls) ≡ true
  pub noted : is_in id.binterface_number d.to_release ≡ true

-- A device that is ready for transfers: also both endpoints are known.
pub record Ready (id : UsbId) (d : UsbDevice) : Type 0 where
  pub same : d.id ≡ id
  pub held : is_in id.binterface_number (claimed d.calls) ≡ true
  pub noted : is_in id.binterface_number d.to_release ≡ true
  pub keys : (d.keys_endpoint == 0) ≡ false
  pub lcd : (d.lcd_endpoint == 0) ≡ false

abbrev pub SameId : UsbId → UsbDevice → Type 0
SameId id d = d.id ≡ id

pub is_in-append : (n : ℕ) (xs ys : List ℕ) → is_in n xs ≡ true → is_in n (xs ++ ys) ≡ true
unfolding is_in
is_in-append n [] ys h = absurd (ground (arith, h))
is_in-append n (x ∷ xs) ys h = ground (arith, h, is_in-append n xs ys)

pub is_in-push : (n : ℕ) (xs : List ℕ) → is_in n (xs ++ n ∷ []) ≡ true
unfolding is_in
is_in-push n [] = ground arith
is_in-push n (x ∷ xs) = ground (arith, is_in-push n xs)

pub claimed-call :
    (n : ℕ) (c : Call) (ok : Bool) (ns : List ℕ)
    → gives_back c ≡ false
    → is_in n ns ≡ true
    → is_in n (claim_step c ok ns) ≡ true
unfolding claim_step
claimed-call n c ok ns g h = grind (arith, is_in-append n ns, claim_step)

-- An interface that libusb gives is claimed.
pub claimed-claim_interface :
    (u : Libusb) (n : ℕ) (d : UsbDevice)
    → (call u (claim_interface n) d).1 ≡ true
    → is_in n (claimed (call u (claim_interface n) d).0.calls) ≡ true
unfolding call claimed claim_step
claimed-claim_interface u n d e = ground (arith, e, is_in-push n (claimed d.calls))

note_endpoint-calls : (ep : Endpoint) (d : UsbDevice) → (note_endpoint ep d).calls ≡ d.calls
unfolding note_endpoint
note_endpoint-calls ep d = ground arith

-- Of what a device starts with, an endpoint changes nothing but the endpoints that are not known.
note_endpoint-id : (ep : Endpoint) (d : UsbDevice) → (note_endpoint ep d).id ≡ d.id
unfolding note_endpoint
note_endpoint-id ep d = ground arith

note_endpoint-to_release :
    (ep : Endpoint) (d : UsbDevice) → (note_endpoint ep d).to_release ≡ d.to_release
unfolding note_endpoint
note_endpoint-to_release ep d = ground arith

note_endpoint-keys :
    (ep : Endpoint) (d : UsbDevice)
    → (d.keys_endpoint == 0) ≡ false
    → ((note_endpoint ep d).keys_endpoint == 0) ≡ false
unfolding note_endpoint
note_endpoint-keys ep d h = ground (arith, h)

note_endpoint-lcd :
    (ep : Endpoint) (d : UsbDevice)
    → (d.lcd_endpoint == 0) ≡ false
    → ((note_endpoint ep d).lcd_endpoint == 0) ≡ false
unfolding note_endpoint
note_endpoint-lcd ep d h = ground (arith, h)

pub and_then-returned :
    (r : UsbDevice × Bool) (next : UsbDevice → UsbDevice × Bool)
    → (and_then r next).1 ≡ true
    → (r.1 ≡ true) × (and_then r next ≡ next r.0)
unfolding and_then
and_then-returned (d, true) next e = (refl, refl)
and_then-returned (d, false) next e = absurd (ground (arith, e))

module _ (u : Libusb) (id : UsbId) where
  pub kept-SameId : Kept u (SameId id)
  unfolding call push_to_attach push_to_release
  kept-SameId = record {
    calls = λ c d g p. p;
    attach = λ n d p. p;
    release = λ n d p. p;
    endpoint = λ ep d p. note_endpoint-id ep d ∙ p;
  }

  pub kept-Claimed : Kept u (Claimed id)
  unfolding call push_to_attach push_to_release claimed
  kept-Claimed = record {
    calls = λ c d g p. record {
      same = p.same;
      held = claimed-call id.binterface_number c (u.succeeds d.calls c) (claimed d.calls) g p.held;
      noted = p.noted;
    };
    attach = λ n d p. record { same = p.same; held = p.held; noted = p.noted };
    release = λ n d p. record {
      same = p.same;
      held = p.held;
      noted = is_in-append id.binterface_number d.to_release (n ∷ []) p.noted;
    };
    endpoint = λ ep d p. record {
      same = note_endpoint-id ep d ∙ p.same;
      held = ap (λ l. is_in id.binterface_number (claimed l)) (note_endpoint-calls ep d) ∙ p.held;
      noted = ap (is_in id.binterface_number) (note_endpoint-to_release ep d) ∙ p.noted;
    };
  }

  pub kept-Ready : Kept u (Ready id)
  unfolding call push_to_attach push_to_release claimed
  kept-Ready = record {
    calls = λ c d g p. record {
      same = p.same;
      held = claimed-call id.binterface_number c (u.succeeds d.calls c) (claimed d.calls) g p.held;
      noted = p.noted;
      keys = p.keys;
      lcd = p.lcd;
    };
    attach = λ n d p. record {
      same = p.same;
      held = p.held;
      noted = p.noted;
      keys = p.keys;
      lcd = p.lcd;
    };
    release = λ n d p. record {
      same = p.same;
      held = p.held;
      noted = is_in-append id.binterface_number d.to_release (n ∷ []) p.noted;
      keys = p.keys;
      lcd = p.lcd;
    };
    endpoint = λ ep d p. record {
      same = note_endpoint-id ep d ∙ p.same;
      held = ap (λ l. is_in id.binterface_number (claimed l)) (note_endpoint-calls ep d) ∙ p.held;
      noted = ap (is_in id.binterface_number) (note_endpoint-to_release ep d) ∙ p.noted;
      keys = note_endpoint-keys ep d p.keys;
      lcd = note_endpoint-lcd ep d p.lcd;
    };
  }

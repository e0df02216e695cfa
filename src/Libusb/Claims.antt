-- ===== src/Libusb/Claims.antt =====
-- The fields of a device agree with the log of the calls while it is opened.
use glogi_k.Prelude.{
  ℕ, Bool, true, false, List, [], ◌∷◌, ◌≡◌, refl, if◌then◌else◌, if-holds, subst, sym,
}
use glogi_k.Libusb.{
  Call, Libusb, UsbDevice, kernel_driver_active, detach_kernel_driver, attach_kernel_driver,
  release_interface, and_then, for_each, call, push_to_attach,
  detach_kernel_driver_from_usb_device_interface, attach_all, release_all,
  attach_usb_device_interfaces_to_kernel_drivers, release_usb_device_interfaces,
}
use glogi_k.Libusb.Held.{
  Holds, is_neutral, neutral-Holds, detach_kernel_driver-Holds, release_interface-Holds,
  attach_kernel_driver-Holds,
}

-- A device whose handle is open; while `free` nothing is claimed.
pub record Tracked (free : Bool) (d : UsbDevice) : Type 0 where
  pub holds : Holds d.to_release d.to_attach d.calls
  pub status : d.usb_requests_status ≡ true
  pub nothing : free ≡ true → d.to_release ≡ []

pub and_then-keeps :
    (P : UsbDevice → Type 0) (r : UsbDevice × Bool) (next : UsbDevice → UsbDevice × Bool)
    → P r.0
    → ((d : UsbDevice) → P d → P (next d).0)
    → P (and_then r next).0
unfolding and_then
and_then-keeps P (d, true) next p h = h d p
and_then-keeps P (d, false) next p h = p

pub for_each-keeps :
    {A : Type 0} (P : UsbDevice → Type 0) (f : A → UsbDevice → UsbDevice × Bool) (xs : List A)
    (d : UsbDevice)
    → ((x : A) (d : UsbDevice) → P d → P (f x d).0)
    → P d
    → P (for_each f xs d).0
unfolding for_each
for_each-keeps P f [] d h p = p
for_each-keeps P f (x ∷ xs) d h p =
    and_then-keeps P (f x d) (for_each f xs) (h x d p) (λ d' p'. for_each-keeps P f xs d' h p')

module _ (u : Libusb) where
  pub call-Tracked :
      (free : Bool) (c : Call) (d : UsbDevice)
      → is_neutral c ≡ true
      → Tracked free d
      → Tracked free (call u c d).0
  unfolding call
  call-Tracked free c d n t = record {
    holds = neutral-Holds c (u.succeeds d.calls c) d.to_release d.to_attach d.calls n t.holds;
    status = t.status;
    nothing = t.nothing;
  }

  detached-Tracked :
      (free : Bool) (n : ℕ) (ok : Bool) (d : UsbDevice)
      → Tracked free d
      → Tracked free
          (and_then
            (record d { calls = (detach_kernel_driver n, ok) ∷ d.calls }, ok)
            (push_to_attach n)).0
  unfolding and_then push_to_attach
  detached-Tracked free n true d t = record {
    holds = detach_kernel_driver-Holds n true d.to_release d.to_attach d.calls t.holds;
    status = t.status;
    nothing = t.nothing;
  }
  detached-Tracked free n false d t = record {
    holds = detach_kernel_driver-Holds n false d.to_release d.to_attach d.calls t.holds;
    status = t.status;
    nothing = t.nothing;
  }

  pub detach_kernel_driver_from_usb_device_interface-Tracked :
      (free : Bool) (n : ℕ) (d : UsbDevice)
      → Tracked free d
      → Tracked free (detach_kernel_driver_from_usb_device_interface u n d).0
  unfolding detach_kernel_driver_from_usb_device_interface is_neutral call
  detach_kernel_driver_from_usb_device_interface-Tracked free n d t =
      and_then-keeps (Tracked free) (call u (kernel_driver_active n) d)
        (λ d₁.
          if u.driver_is_active d.calls n
          then and_then (call u (detach_kernel_driver n) d₁) (push_to_attach n)
          else (d₁, true))
        (call-Tracked free (kernel_driver_active n) d refl t)
        (λ d₁ t₁.
          if-holds (λ r. Tracked free r.0) (u.driver_is_active d.calls n)
            (and_then (call u (detach_kernel_driver n) d₁) (push_to_attach n)) (d₁, true)
            (λ _. detached-Tracked free n (u.succeeds d₁.calls (detach_kernel_driver n)) d₁ t₁)
            (λ _. t₁))

  -- Both loops that give back leave all but the log.
  attach_all-rest :
      (ns : List ℕ) (d : UsbDevice)
      → ((attach_all u ns d).to_release ≡ d.to_release)
        × ((attach_all u ns d).usb_requests_status ≡ d.usb_requests_status)
  unfolding attach_all call
  attach_all-rest [] d = (refl, refl)
  attach_all-rest (n ∷ ns) d = attach_all-rest ns (call u (attach_kernel_driver n) d).0

  attach_all-Holds :
      (ns : List ℕ) (d : UsbDevice) → Holds [] ns d.calls → Holds [] [] (attach_all u ns d).calls
  unfolding attach_all call
  attach_all-Holds [] d h = h
  attach_all-Holds (n ∷ ns) d h =
      attach_all-Holds ns (call u (attach_kernel_driver n) d).0
        (attach_kernel_driver-Holds n (u.succeeds d.calls (attach_kernel_driver n)) ns d.calls h)

  release_all-rest :
      (ns : List ℕ) (d : UsbDevice)
      → ((release_all u ns d).to_attach ≡ d.to_attach)
        × ((release_all u ns d).usb_requests_status ≡ d.usb_requests_status)
  unfolding release_all call
  release_all-rest [] d = (refl, refl)
  release_all-rest (n ∷ ns) d = release_all-rest ns (call u (release_interface n) d).0

  release_all-Holds :
      (ns ds : List ℕ) (d : UsbDevice)
      → Holds ns ds d.calls
      → Holds [] ds (release_all u ns d).calls
  unfolding release_all call
  release_all-Holds [] ds d h = h
  release_all-Holds (n ∷ ns) ds d h =
      release_all-Holds ns ds (call u (release_interface n) d).0
        (release_interface-Holds n (u.succeeds d.calls (release_interface n)) ns ds d.calls h)

  pub attach_usb_device_interfaces_to_kernel_drivers-Tracked :
      (d : UsbDevice)
      → Tracked true d
      → Tracked true (attach_usb_device_interfaces_to_kernel_drivers u d)
  unfolding attach_usb_device_interfaces_to_kernel_drivers
  attach_usb_device_interfaces_to_kernel_drivers-Tracked d t =
      let none_claimed = t.nothing refl in
      let rest = attach_all-rest d.to_attach d in
      let holds =
        attach_all-Holds d.to_attach d
          (subst (λ cs. Holds cs d.to_attach d.calls) none_claimed t.holds) in
      record {
        holds =
            subst (λ cs. Holds cs [] (attach_all u d.to_attach d).calls)
              (sym (rw (rest.0, none_claimed) refl)) holds;
        status = rw rest.1 t.status;
        nothing = λ _. rw rest.0 none_claimed;
      }

  pub release_usb_device_interfaces-Tracked :
      (d : UsbDevice) → Tracked false d → Tracked true (release_usb_device_interfaces u d)
  unfolding release_usb_device_interfaces
  release_usb_device_interfaces-Tracked d t =
      let rest = release_all-rest d.to_release d in
      attach_usb_device_interfaces_to_kernel_drivers-Tracked
        (record (release_all u d.to_release d) { to_release = [] })
        (record {
          holds =
              subst (λ ds. Holds [] ds (release_all u d.to_release d).calls) (sym rest.0)
                (release_all-Holds d.to_release d.to_attach d t.holds);
          status = rw rest.1 t.status;
          nothing = λ _. refl;
        })

  pub release_usb_device_interfaces-Holds :
      (d : UsbDevice) → Tracked false d → Holds [] [] (release_usb_device_interfaces u d).calls
  unfolding release_usb_device_interfaces attach_usb_device_interfaces_to_kernel_drivers
  release_usb_device_interfaces-Holds d t =
      let released = release_usb_device_interfaces-Tracked d t in
      subst (λ cs. Holds cs [] (release_usb_device_interfaces u d).calls) (released.nothing refl)
        released.holds

-- ===== src/Libusb/Opened.antt =====
-- What is held after a device is opened, and after it is closed.
use glogi_k.Prelude.{Bool, true, false, [], ◌∷◌, ◌≡◌, arith, subst, if◌then◌else◌, subst, sym}
use glogi_k.Libusb.{
  Libusb, UsbDevice, get_device_list, open_handle, close_handle, and_then, call, is_listed,
  seek_usb_device, release_usb_device_interfaces, set_usb_device_active_configuration,
  find_usb_device_interface, close_usb_device, close_on_failure, open_usb_device,
}
use glogi_k.Libusb.Held.{
  Holds, Released, open_handle-Holds, close_handle-Released, get_device_list-Released,
  open_handle-Released,
}
use glogi_k.Libusb.Claims.{Tracked, and_then-keeps, release_usb_device_interfaces-Holds}
use glogi_k.Libusb.Configuration.{set_usb_device_active_configuration-Tracked}
use glogi_k.Libusb.Taken.{find_usb_device_interface-Tracked}

-- What openUSBDevice leaves: an open handle and fields that list what is held, so that closing gives
-- it back; or, with an exception, nothing.
unfoldable pub AfterOpen : Libusb → UsbDevice × Bool → Type 0
AfterOpen u (d, true) =
    Holds d.to_release d.to_attach d.calls × Released (close_usb_device u d).calls
AfterOpen u (d, false) = Released d.calls

-- A device that is not open and that nothing is held of.
pub record Fresh (d : UsbDevice) : Type 0 where
  pub status : d.usb_requests_status ≡ true
  pub to_release : d.to_release ≡ []
  pub to_attach : d.to_attach ≡ []
  pub released : Released d.calls

module _ (u : Libusb) where
  close_usb_device-Released :
      (d : UsbDevice) → Tracked false d → Released (close_usb_device u d).calls
  unfolding close_usb_device call
  close_usb_device-Released d t =
      let released = release_usb_device_interfaces u d in
      subst (λ b. Released (call u close_handle (if b then released else d)).0.calls) (sym t.status)
        (close_handle-Released (u.succeeds released.calls close_handle) released.calls
          (release_usb_device_interfaces-Holds u d t))

  close_on_failure-AfterOpen :
      (r : UsbDevice × Bool) → Tracked false r.0 → AfterOpen u (close_on_failure u r)
  unfolding AfterOpen close_on_failure
  close_on_failure-AfterOpen (d, true) t = (t.holds, close_usb_device-Released d t)
  close_on_failure-AfterOpen (d, false) t = close_usb_device-Released d t

  Fresh-Tracked :
      (d : UsbDevice) → Fresh d → Tracked true (record d { calls = (open_handle, true) ∷ d.calls })
  Fresh-Tracked d f =
      let l = (open_handle, true) ∷ d.calls in
      record {
        holds =
            subst (λ cs. Holds cs d.to_attach l) (sym f.to_release)
              (subst (λ ds. Holds [] ds l) (sym f.to_attach)
                (open_handle-Holds d.calls f.released));
        status = f.status;
        nothing = λ _. f.to_release;
      }

  opened-AfterOpen :
      (ok : Bool) (d : UsbDevice)
      → Fresh d
      → AfterOpen u (
          and_then
            (record d { calls = (open_handle, ok) ∷ d.calls }, ok)
            (λ d₂.
              close_on_failure u (
                and_then (set_usb_device_active_configuration u d₂) (find_usb_device_interface u))))
  unfolding and_then AfterOpen
  opened-AfterOpen false d f = open_handle-Released d.calls f.released
  opened-AfterOpen true d f =
      let d₂ : UsbDevice = record d { calls = (open_handle, true) ∷ d.calls } in
      let t = set_usb_device_active_configuration-Tracked u d₂ (Fresh-Tracked d f) in
      close_on_failure-AfterOpen
        (and_then (set_usb_device_active_configuration u d₂) (find_usb_device_interface u))
        (and_then-keeps (Tracked false) (set_usb_device_active_configuration u d₂)
          (find_usb_device_interface u)
          (record { holds = t.holds; status = t.status; nothing = λ e. absurd (ground (arith, e)) })
          (find_usb_device_interface-Tracked u))

  and_then-AfterOpen :
      (r : UsbDevice × Bool) (next : UsbDevice → UsbDevice × Bool)
      → Fresh r.0
      → ((d : UsbDevice) → Fresh d → AfterOpen u (next d))
      → AfterOpen u (and_then r next)
  unfolding and_then AfterOpen
  and_then-AfterOpen (d, true) next f h = h d f
  and_then-AfterOpen (d, false) next f h = f.released

  seek_usb_device-Fresh : (d : UsbDevice) → Fresh d → Fresh (seek_usb_device u d).0
  unfolding seek_usb_device call
  seek_usb_device-Fresh d f =
      and_then-keeps Fresh (call u get_device_list d)
        (λ d₁. (d₁, is_listed d.id (u.devices d.calls)))
        (record {
          status = f.status;
          to_release = f.to_release;
          to_attach = f.to_attach;
          released =
              get_device_list-Released (u.succeeds d.calls get_device_list) d.calls f.released;
        })
        (λ d₁ f₁. f₁)

  -- Whatever libusb answers: when openUSBDevice throws, the handle is closed, every interface that was
  -- claimed is asked to be released and every driver that was detached to be attached again; when it
  -- returns, the fields of the device list what is held, and closeUSBDevice gives all of it back. All
  -- calls are in order: on an open handle, a driver is attached only to an interface that lost it and
  -- is not claimed, and only what is claimed is released. The device is not opened before, and no
  -- request to it is skipped.
  pub open_usb_device-AfterOpen : (d : UsbDevice) → Fresh d → AfterOpen u (open_usb_device u d)
  unfolding open_usb_device call
  open_usb_device-AfterOpen d f =
      and_then-AfterOpen (seek_usb_device u d)
        (λ d₁. and_then (call u open_handle d₁) (λ d₂.
          close_on_failure u
            (and_then (set_usb_device_active_configuration u d₂) (find_usb_device_interface u))))
        (seek_usb_device-Fresh d f)
        (λ d₁ f₁. opened-AfterOpen (u.succeeds d₁.calls open_handle) d₁ f₁)

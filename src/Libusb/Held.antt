-- ===== src/Libusb/Held.antt =====
-- What a log of libusb calls says of the interfaces of a device, and which calls are in order.
use glogi_k.Prelude.{
  ℕ, Bool, true, false, not, ◌&&◌, List, [], ◌∷◌, ◌++◌, ◌≡◌, refl, arith, ◌==◌, if◌then◌else◌,
}
use glogi_k.Libusb.{
  Call, Log, get_device_list, get_device_descriptor, open_handle, close_handle,
  get_config_descriptor, detach_kernel_driver, attach_kernel_driver, claim_interface,
  release_interface,
}

unfoldable pub is_in : ℕ → List ℕ → Bool
is_in n [] = false
is_in n (x ∷ xs) = if n == x then true else is_in n xs

-- All but the first occurrence.
unfoldable pub without : ℕ → List ℕ → List ℕ
without n [] = []
without n (x ∷ xs) = if n == x then xs else x ∷ without n xs

-- The interfaces that are claimed and not asked to be released since, the first one first.
unfoldable pub claim_step : Call → Bool → List ℕ → List ℕ
claim_step c ok ns = elim c [
  | claim_interface n ↦ if ok then ns ++ n ∷ [] else ns
  | release_interface n ↦ without n ns
  | other ↦ ns
]

unfoldable pub claimed : Log → List ℕ
claimed [] = []
claimed ((c, ok) ∷ l) = claim_step c ok (claimed l)

-- The interfaces whose kernel driver is detached and not asked to be attached since.
unfoldable pub detach_step : Call → Bool → List ℕ → List ℕ
detach_step c ok ns = elim c [
  | detach_kernel_driver n ↦ if ok then ns ++ n ∷ [] else ns
  | attach_kernel_driver n ↦ without n ns
  | other ↦ ns
]

unfoldable pub detached : Log → List ℕ
detached [] = []
detached ((c, ok) ∷ l) = detach_step c ok (detached l)

unfoldable pub open_step : Call → Bool → Bool → Bool
open_step c ok before = elim c [
  | open_handle ↦ if ok then true else before
  | close_handle ↦ false
  | other ↦ before
]

unfoldable pub is_open : Log → Bool
is_open [] = false
is_open ((c, ok) ∷ l) = open_step c ok (is_open l)

-- A call on a handle needs an open one; a driver is attached to an interface that is not claimed and
-- that lost its driver before; only a claimed interface is released.
unfoldable pub is_in_order : Call → Log → Bool
is_in_order c l = elim c [
  | get_device_list ↦ true
  | get_device_descriptor ↦ true
  | get_config_descriptor i ↦ true
  | open_handle ↦ not (is_open l)
  | attach_kernel_driver n ↦ is_open l && (not (is_in n (claimed l)) && is_in n (detached l))
  | release_interface n ↦ is_open l && is_in n (claimed l)
  | other ↦ is_open l
]

unfoldable pub is_orderly : Log → Bool
is_orderly [] = true
is_orderly ((c, ok) ∷ l) = is_in_order c l && is_orderly l

-- A log after which the handle is open, these interfaces are claimed and these detached.
pub record Holds (cs ds : List ℕ) (l : Log) : Type 0 where
  pub claims : claimed l ≡ cs
  pub detaches : detached l ≡ ds
  pub opened : is_open l ≡ true
  pub orderly : is_orderly l ≡ true

-- The handle is closed, and nothing is kept.
pub record Released (l : Log) : Type 0 where
  pub claims : claimed l ≡ []
  pub detaches : detached l ≡ []
  pub closed : is_open l ≡ false
  pub orderly : is_orderly l ≡ true

-- A call on the open handle that neither takes an interface nor gives it back.
unfoldable pub is_neutral : Call → Bool
is_neutral c = elim c [
  | open_handle ↦ false
  | close_handle ↦ false
  | detach_kernel_driver n ↦ false
  | attach_kernel_driver n ↦ false
  | claim_interface n ↦ false
  | release_interface n ↦ false
  | other ↦ true
]

pub neutral-Holds :
    (c : Call) (ok : Bool) (cs ds : List ℕ) (l : Log)
    → is_neutral c ≡ true
    → Holds cs ds l
    → Holds cs ds ((c, ok) ∷ l)
unfolding is_neutral claim_step claimed detach_step detached open_step is_open is_in_order
    is_orderly
neutral-Holds c ok cs ds l n h = record {
  claims = ground (arith, n, h.claims);
  detaches = ground (arith, n, h.detaches);
  opened = ground (arith, n, h.opened);
  orderly = ground (arith, n, h.opened, h.orderly);
}

pub detach_kernel_driver-Holds :
    (n : ℕ) (ok : Bool) (cs ds : List ℕ) (l : Log)
    → Holds cs ds l
    → Holds cs (if ok then ds ++ n ∷ [] else ds) ((detach_kernel_driver n, ok) ∷ l)
unfolding claim_step claimed detach_step detached open_step is_open is_in_order is_orderly
detach_kernel_driver-Holds n ok cs ds l h = record {
  claims = h.claims;
  detaches = rw h.detaches refl;
  opened = h.opened;
  orderly = ground (arith, h.opened, h.orderly);
}

pub claim_interface-Holds :
    (n : ℕ) (ok : Bool) (cs ds : List ℕ) (l : Log)
    → Holds cs ds l
    → Holds (if ok then cs ++ n ∷ [] else cs) ds ((claim_interface n, ok) ∷ l)
unfolding claim_step claimed detach_step detached open_step is_open is_in_order is_orderly
claim_interface-Holds n ok cs ds l h = record {
  claims = rw h.claims refl;
  detaches = h.detaches;
  opened = h.opened;
  orderly = ground (arith, h.opened, h.orderly);
}

pub release_interface-Holds :
    (n : ℕ) (ok : Bool) (cs ds : List ℕ) (l : Log)
    → Holds (n ∷ cs) ds l
    → Holds cs ds ((release_interface n, ok) ∷ l)
unfolding claim_step claimed detach_step detached open_step is_open is_in_order is_orderly without
    is_in
release_interface-Holds n ok cs ds l h = record {
  claims = rw h.claims (ground arith);
  detaches = h.detaches;
  opened = h.opened;
  orderly = rw (h.claims, h.opened, h.orderly) (ground arith);
}

pub attach_kernel_driver-Holds :
    (n : ℕ) (ok : Bool) (ds : List ℕ) (l : Log)
    → Holds [] (n ∷ ds) l
    → Holds [] ds ((attach_kernel_driver n, ok) ∷ l)
unfolding claim_step claimed detach_step detached open_step is_open is_in_order is_orderly without
    is_in
attach_kernel_driver-Holds n ok ds l h = record {
  claims = h.claims;
  detaches = rw h.detaches (ground arith);
  opened = h.opened;
  orderly = rw (h.claims, h.detaches, h.opened, h.orderly) (ground arith);
}

pub open_handle-Holds : (l : Log) → Released l → Holds [] [] ((open_handle, true) ∷ l)
unfolding claim_step claimed detach_step detached open_step is_open is_in_order is_orderly
open_handle-Holds l h = record {
  claims = h.claims;
  detaches = h.detaches;
  opened = refl;
  orderly = ground (arith, h.closed, h.orderly);
}

pub close_handle-Released :
    (ok : Bool) (l : Log) → Holds [] [] l → Released ((close_handle, ok) ∷ l)
unfolding claim_step claimed detach_step detached open_step is_open is_in_order is_orderly
close_handle-Released ok l h = record {
  claims = h.claims;
  detaches = h.detaches;
  closed = refl;
  orderly = ground (arith, h.opened, h.orderly);
}

-- Before the handle is open: the list of the devices is read, or it does not open.
pub get_device_list-Released :
    (ok : Bool) (l : Log) → Released l → Released ((get_device_list, ok) ∷ l)
unfolding claim_step claimed detach_step detached open_step is_open is_in_order is_orderly
get_device_list-Released ok l h = record {
  claims = h.claims;
  detaches = h.detaches;
  closed = h.closed;
  orderly = h.orderly;
}

pub open_handle-Released : (l : Log) → Released l → Released ((open_handle, false) ∷ l)
unfolding claim_step claimed detach_step detached open_step is_open is_in_order is_orderly
open_handle-Released l h = record {
  claims = h.claims;
  detaches = h.detaches;
  closed = h.closed;
  orderly = ground (arith, h.closed, h.orderly);
}

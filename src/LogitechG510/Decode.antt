-- ===== src/LogitechG510/Decode.antt =====
-- What the driver reads from a packet: the keys that it reports are the keys that are down.
use glogi_k.Prelude.{
  ℕ, ◌+◌, Bool, true, false, List, [], ◌∷◌, ◌++◌, Option, none, some, ◌≡◌, refl, arith, bit_or,
  ◌==◌, ◌||◌, ◌∙◌, ap, if◌then◌else◌, All, ◌&&◌,
}
use glogi_k.Prelude.Bits.{has, has-set, has-zero, or_assoc_swap}
use glogi_k.Keys.{key_flag, key_shift, get_gkey_id}
use glogi_k.UsbDevice.{Device}
use glogi_k.LogitechG510.{
  RKey, keys5_bytes_map, mkeys5_bytes_map, gkeys5_bytes_map, lcd_keys5_bytes_map,
  media_keys2_bytes_map, byte, set_pressed, first_pressed, gkey_result, check_gkey,
  process_key_event,
}
use glogi_k.Keys.{
  Key, gk_key_g1, gk_key_g2, gk_key_g3, gk_key_g4, gk_key_g5, gk_key_g6, gk_key_g7, gk_key_g8,
  gk_key_g9, gk_key_g10, gk_key_g11, gk_key_g12, gk_key_g13, gk_key_g14, gk_key_g15, gk_key_g16,
  gk_key_g17, gk_key_g18,
}

-- Whether some entry of the table for the key finds it down in the packet.
down : List RKey → List ℕ → Key → Bool
down [] buffer k = false
down (r ∷ rs) buffer k =
    (key_shift r.key == key_shift k && has (byte buffer r.index) r.mask) || down rs buffer k

has-set_pressed :
    (rs : List RKey) (buffer : List ℕ) (mask : ℕ) (k : Key)
    → has (set_pressed rs buffer mask) (key_flag k) ≡ (down rs buffer k || has mask (key_flag k))
unfolding set_pressed down key_flag
has-set_pressed [] buffer mask k = refl
has-set_pressed (r ∷ rs) buffer mask k =
    let pressed = has (byte buffer r.index) r.mask in
    has-set_pressed rs buffer (if pressed then bit_or mask (key_flag r.key) else mask) k
    ∙ ap (λ (b : Bool). down rs buffer k || b)
        (has-set pressed mask (key_shift r.key) (key_shift k))
    ∙ or_assoc_swap (down rs buffer k) (key_shift r.key == key_shift k) pressed
        (has mask (key_flag k))

-- What the table says of a key: the bit at the byte and the mask of its entry, and false for a key
-- that has no entry.
unfoldable pub held : List RKey → List ℕ → Key → Bool
held [] buffer k = false
held (r ∷ rs) buffer k =
    if key_shift r.key == key_shift k then has (byte buffer r.index) r.mask else held rs buffer k

-- All entries for packets of five bytes, and of two.
abbrev pub keys_of_5_bytes : List RKey
keys_of_5_bytes = keys5_bytes_map ++ mkeys5_bytes_map ++ gkeys5_bytes_map ++ lcd_keys5_bytes_map

four_tables :
    (buffer : List ℕ) (k : Key)
    → (down lcd_keys5_bytes_map buffer k
        || (down gkeys5_bytes_map buffer k
            || (down mkeys5_bytes_map buffer k || (down keys5_bytes_map buffer k || false))))
      ≡ held keys_of_5_bytes buffer k
unfolding down held key_shift
four_tables buffer gk_key_g1 = ground arith
four_tables buffer _ = ground arith

media_table :
    (buffer : List ℕ) (k : Key)
    → (down media_keys2_bytes_map buffer k || false) ≡ held media_keys2_bytes_map buffer k
unfolding down held key_shift
media_table buffer gk_key_g1 = ground arith
media_table buffer _ = ground arith

abbrev pub Packet : ℕ → ℕ → Device → Type 0
Packet length report d =
    (d.last_keys_interrupt_transfer_length ≡ length) × (byte d.pressed_keys 0 ≡ report)

mask_of_5_bytes :
    (fill : Device → Device) (d : Device)
    → Packet 5 3 d
    → (process_key_event fill d).1.pressed_rkeys_mask
      ≡ set_pressed lcd_keys5_bytes_map d.pressed_keys (
          set_pressed gkeys5_bytes_map d.pressed_keys (
            set_pressed mkeys5_bytes_map d.pressed_keys
              (set_pressed keys5_bytes_map d.pressed_keys 0)))
unfolding process_key_event
mask_of_5_bytes fill d h = ground arith

four_passes :
    (buffer : List ℕ) (k : Key)
    → has
        (set_pressed lcd_keys5_bytes_map buffer (
          set_pressed gkeys5_bytes_map buffer
            (set_pressed mkeys5_bytes_map buffer (set_pressed keys5_bytes_map buffer 0))))
        (key_flag k)
      ≡ (down lcd_keys5_bytes_map buffer k
          || (down gkeys5_bytes_map buffer k
              || (down mkeys5_bytes_map buffer k || (down keys5_bytes_map buffer k || false))))
four_passes buffer k =
    let m₁ = set_pressed keys5_bytes_map buffer 0 in
    let m₂ = set_pressed mkeys5_bytes_map buffer m₁ in
    let m₃ = set_pressed gkeys5_bytes_map buffer m₂ in
    cc (
      has-set_pressed lcd_keys5_bytes_map buffer m₃ k,
      has-set_pressed gkeys5_bytes_map buffer m₂ k,
      has-set_pressed mkeys5_bytes_map buffer m₁ k,
      has-set_pressed keys5_bytes_map buffer 0 k,
      has-zero (key_flag k),
    )

-- A packet of five bytes whose first byte is 0x03 sets the flag of every key that its entry finds
-- down in the packet, and no other flag, whatever the mask was before.
pub process_key_event-held :
    (fill : Device → Device) (d : Device) (k : Key)
    → Packet 5 3 d
    → has (process_key_event fill d).1.pressed_rkeys_mask (key_flag k)
      ≡ held keys_of_5_bytes d.pressed_keys k
process_key_event-held fill d k h =
    ap (λ (m : ℕ). has m (key_flag k)) (mask_of_5_bytes fill d h)
    ∙ four_passes d.pressed_keys k
    ∙ four_tables d.pressed_keys k

-- A packet of two bytes whose first byte is 0x02 does the same for the media keys.
process_key_event-media :
    (fill : Device → Device) (d : Device) (k : Key)
    → Packet 2 2 d
    → has (process_key_event fill d).1.pressed_rkeys_mask (key_flag k)
      ≡ held media_keys2_bytes_map d.pressed_keys k
unfolding process_key_event
process_key_event-media fill d k h =
    let mask : (process_key_event fill d).1.pressed_rkeys_mask
        ≡ set_pressed media_keys2_bytes_map d.pressed_keys 0 =
      ground arith in
    ap (λ (m : ℕ). has m (key_flag k)) mask
    ∙ has-set_pressed media_keys2_bytes_map d.pressed_keys 0 k
    ∙ ap (λ (b : Bool). down media_keys2_bytes_map d.pressed_keys k || b) (has-zero (key_flag k))
    ∙ media_table d.pressed_keys k

-- The first entry of a table that the packet finds down.
unfoldable pub first_held : List RKey → List ℕ → Option Key
first_held [] buffer = none
first_held (r ∷ rs) buffer =
    if has (byte buffer r.index) r.mask then some r.key else first_held rs buffer

first_pressed-first_held :
    (rs : List RKey) (buffer : List ℕ) (mask : ℕ)
    → All (λ r. has mask (key_flag r.key) ≡ has (byte buffer r.index) r.mask) rs
    → first_pressed rs mask ≡ first_held rs buffer
unfolding first_pressed first_held
first_pressed-first_held [] buffer mask h = refl
first_pressed-first_held (r ∷ rs) buffer mask h =
    ground (arith, first_pressed-first_held rs buffer mask h.1)

-- The G-key that `checkGKey` reports is the number of the enum `GKeysID`.
abbrev pub gkey_number : Key → ℕ
gkey_number k = key_shift k + 1

abbrev pub with_gkey : Device → Option Key → Bool × Device
with_gkey d none = (false, d)
with_gkey d (some k) = (true, record d { gkey_id = gkey_number k })

gkeys_id :
    (rs : List RKey) (d : Device)
    → All (λ r. get_gkey_id r.key ≡ some (gkey_number r.key)) rs
    → (buffer : List ℕ)
    → gkey_result (first_held rs buffer) d ≡ some (with_gkey d (first_held rs buffer))
unfolding first_held gkey_result
gkeys_id [] d h buffer = refl
gkeys_id (r ∷ rs) d h buffer = ground (arith, gkeys_id rs d h.1 buffer)

gkeys_named : All (λ r. get_gkey_id r.key ≡ some (gkey_number r.key)) gkeys5_bytes_map
unfolding get_gkey_id key_shift
gkeys_named = (
  refl,
  (
    refl,
    (
      refl,
      (
        refl,
        (
          refl,
          (
            refl,
            (
              refl,
              (
                refl,
                (refl, (refl, (refl, (refl, (refl, (refl, (refl, (refl, (refl, (refl, tt)))))))))),
              ),
            ),
          ),
        ),
      ),
    ),
  ),
)

gkeys_agree :
    (fill : Device → Device) (d : Device)
    → Packet 5 3 d
    → All
        (λ r.
          has (process_key_event fill d).1.pressed_rkeys_mask (key_flag r.key)
          ≡ has (byte d.pressed_keys r.index) r.mask)
        gkeys5_bytes_map
unfolding held key_shift
gkeys_agree fill d h =
    let at = λ (k : Key). process_key_event-held fill d k h in
    (
      at gk_key_g1,
      (
        at gk_key_g2,
        (
          at gk_key_g3,
          (
            at gk_key_g4,
            (
              at gk_key_g5,
              (
                at gk_key_g6,
                (
                  at gk_key_g7,
                  (
                    at gk_key_g8,
                    (
                      at gk_key_g9,
                      (
                        at gk_key_g10,
                        (
                          at gk_key_g11,
                          (
                            at gk_key_g12,
                            (
                              at gk_key_g13,
                              (
                                at gk_key_g14,
                                (
                                  at gk_key_g15,
                                  (at gk_key_g16, (at gk_key_g17, (at gk_key_g18, tt))),
                                ),
                              ),
                            ),
                          ),
                        ),
                      ),
                    ),
                  ),
                ),
              ),
            ),
          ),
        ),
      ),
    )

-- After a packet of five bytes whose first byte is 0x03, `checkGKey` does not throw. It reports the
-- lowest G-key that is down in the packet and stores its number; it reports none and changes nothing
-- if no G-key is down.
pub check_gkey-first_held :
    (fill : Device → Device) (d : Device)
    → Packet 5 3 d
    → let d' = (process_key_event fill d).1 in
      check_gkey d' ≡ some (with_gkey d' (first_held gkeys5_bytes_map d.pressed_keys))
unfolding check_gkey
check_gkey-first_held fill d h =
    let d' = (process_key_event fill d).1 in
    ap (λ (o : Option Key). gkey_result o d')
      (first_pressed-first_held gkeys5_bytes_map d.pressed_keys d'.pressed_rkeys_mask
        (gkeys_agree fill d h))
    ∙ gkeys_id gkeys5_bytes_map d' gkeys_named d.pressed_keys

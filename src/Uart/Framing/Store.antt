-- ===== src/Uart/Framing/Store.antt =====
-- The receive buffer of uarthandler.c under the bytes of one frame.
use contiki_device_link.Common.{
  ℕ, zero, suc, ◌+◌, ◌≤◌, ◌<◌, ◌≡◌, ◌≢◌, refl, ap, sym, ◌∙◌, List, [], ◌∷◌, ◌++◌, some, arith, ◌==◌,
  length, take, set, get_or, append_assoc, append-nil, length-set, Bool-cases, inl, inr,
}
use contiki_device_link.Uart.{
  end_byte, rx_buffers, rx_buflen, Buffer, blank, Uart, write_byte, active, set_active, store_byte,
  remember, proxy_rx_callback, receive, contents,
}
use contiki_device_link.Uart.Framing.Wire.{unescape, stored, last_after, NoEnd}

-- The five buffers are there, each of its full size, and the active one is one of them.
pub record IsValid (u : Uart) : Type 0 where
  pub in_ring : u.activebuffer < rx_buffers
  pub buffers : length u.rxbuf ≡ rx_buffers
  pub sizes : (i : ℕ) → length (get_or u.rxbuf i blank).buffer ≡ rx_buflen

module _ {ℓ} {A : Type ℓ} where
  pub get_or-set_self :
      (xs : List A) (i : ℕ) (v d : A) → i < length xs → get_or (set xs i v) i d ≡ v
  get_or-set_self [] i v d h = absurd (omega arith)
  get_or-set_self (x ∷ xs) zero v d h = refl
  get_or-set_self (x ∷ xs) (suc i) v d h = get_or-set_self xs i v d (omega arith)

  pub get_or-set_ne :
      (xs : List A) (i j : ℕ) (v d : A) → i ≢ j → get_or (set xs i v) j d ≡ get_or xs j d
  get_or-set_ne [] i j v d h = refl
  get_or-set_ne (x ∷ xs) zero zero v d h = absurd (h refl)
  get_or-set_ne (x ∷ xs) zero (suc j) v d h = refl
  get_or-set_ne (x ∷ xs) (suc i) zero v d h = refl
  get_or-set_ne (x ∷ xs) (suc i) (suc j) v d h = get_or-set_ne xs i j v d (λ e. h (ap suc e))

  pub take-set :
      (xs : List A) (n : ℕ) (v : A)
      → n < length xs
      → take (suc n) (set xs n v) ≡ take n xs ++ v ∷ []
  take-set [] n v h = absurd (omega arith)
  take-set (x ∷ xs) zero v h = refl
  take-set (x ∷ xs) (suc n) v h = ap (λ t. x ∷ t) (take-set xs n v (omega arith))

-- `u'` is `u` after the bytes `cs` of a frame's body: they went to the active buffer alone.
pub record IsStored (u : Uart) (bytes : List ℕ) (u' : Uart) : Type 0 where
  pub same_active : u'.activebuffer ≡ u.activebuffer
  pub same_posted : u'.posted ≡ u.posted
  pub moved : (active u').wrt_ptr ≡ (active u).wrt_ptr + length bytes
  pub appended : contents (active u') ≡ contents (active u) ++ bytes
  pub others : (i : ℕ) → i ≢ u.activebuffer → get_or u'.rxbuf i blank ≡ get_or u.rxbuf i blank
  pub valid : IsValid u'

abbrev put_byte : Buffer → ℕ → Buffer
put_byte b c = record { buffer = set b.buffer b.wrt_ptr c; wrt_ptr = b.wrt_ptr + 1 }

store_byte-some :
    (u : Uart) (c : ℕ)
    → (active u).wrt_ptr < rx_buflen
    → store_byte u c ≡ some (set_active u (put_byte (active u) c))
unfolding store_byte write_byte
store_byte-some u c h = ground arith

sizes-set :
    (u : Uart) (b : Buffer)
    → IsValid u
    → length b.buffer ≡ rx_buflen
    → (i : ℕ) → length (get_or (set u.rxbuf u.activebuffer b) i blank).buffer ≡ rx_buflen
sizes-set u b v h i = elim (Bool-cases (u.activebuffer == i)) [
  | inl e ↦ ground (arith, v.in_ring, v.buffers, get_or-set_self u.rxbuf u.activebuffer b blank)
  | inr e ↦ ground (arith, v.sizes i, get_or-set_ne u.rxbuf u.activebuffer i b blank)
]

active-set :
    (u : Uart) (b : Buffer)
    → IsValid u
    → get_or (set u.rxbuf u.activebuffer b) u.activebuffer blank ≡ b
active-set u b v = get_or-set_self u.rxbuf u.activebuffer b blank (omega (arith, v.in_ring))

contents-put_byte :
    (b : Buffer) (c : ℕ)
    → length b.buffer ≡ rx_buflen
    → b.wrt_ptr < rx_buflen
    → contents (put_byte b c) ≡ contents b ++ c ∷ []
contents-put_byte b c h k =
    ap (λ n. take n (set b.buffer b.wrt_ptr c)) {y = suc b.wrt_ptr} (omega arith)
    ∙ take-set b.buffer b.wrt_ptr c (omega arith)

set_active-IsStored :
    (u : Uart) (c last : ℕ)
    → IsValid u
    → (active u).wrt_ptr < rx_buflen
    → IsStored u (c ∷ []) (record (set_active u (put_byte (active u) c)) { last_c = last })
unfolding set_active
set_active-IsStored u c last v h =
    let b = put_byte (active u) c in
    let now = active-set u b v in
    record {
      same_active = refl;
      same_posted = refl;
      moved = ap (λ (t : Buffer). t.wrt_ptr) now;
      appended = ap contents now ∙ contents-put_byte (active u) c (v.sizes u.activebuffer) h;
      others = λ i ne. get_or-set_ne u.rxbuf u.activebuffer i b blank (λ e. ne (sym e));
      valid = record {
        in_ring = v.in_ring;
        buffers = length-set u.rxbuf u.activebuffer b ∙ v.buffers;
        sizes =
            sizes-set u b v
              (length-set (active u).buffer (active u).wrt_ptr c ∙ v.sizes u.activebuffer);
      };
    }

-- One byte that is not END is stored as `unescape` says.
proxy_rx_callback-store :
    (u : Uart) (c : ℕ)
    → c ≢ end_byte
    → proxy_rx_callback u c ≡ remember c (store_byte u (unescape u.last_c c))
unfolding proxy_rx_callback
proxy_rx_callback-store u c h = ground arith

stepped : Uart → ℕ → Uart
stepped u c = record (set_active u (put_byte (active u) (unescape u.last_c c))) { last_c = c }

proxy_rx_callback-stepped :
    (u : Uart) (c : ℕ)
    → c ≢ end_byte
    → (active u).wrt_ptr < rx_buflen
    → proxy_rx_callback u c ≡ some (stepped u c)
unfolding stepped remember
proxy_rx_callback-stepped u c ne h =
    proxy_rx_callback-store u c ne ∙ ap (remember c) (store_byte-some u (unescape u.last_c c) h)

IsStored-refl : (u : Uart) → IsValid u → IsStored u [] u
IsStored-refl u v = record {
  same_active = refl;
  same_posted = refl;
  moved = omega arith;
  appended = sym (append-nil (contents (active u)));
  others = λ i ne. refl;
  valid = v;
}

IsStored-trans :
    (u t w : Uart) (x : ℕ) (xs : List ℕ)
    → IsStored u (x ∷ []) t
    → IsStored t xs w
    → IsStored u (x ∷ xs) w
IsStored-trans u t w x xs a b = record {
  same_active = b.same_active ∙ a.same_active;
  same_posted = b.same_posted ∙ a.same_posted;
  moved = omega (arith, a.moved, b.moved);
  appended =
      b.appended ∙ (ap (λ l. l ++ xs) a.appended ∙ append_assoc (contents (active u)) (x ∷ []) xs);
  others = λ i ne. b.others i (rw a.same_active ne) ∙ a.others i ne;
  valid = b.valid;
}

pub receive-cons :
    (u u' : Uart) (c : ℕ) (cs : List ℕ)
    → proxy_rx_callback u c ≡ some u'
    → receive u (c ∷ cs) ≡ receive u' cs
unfolding receive
receive-cons u u' c cs e = rw (e, receive)

-- A body with no END byte that fits the active buffer is stored there, and the receiver goes on.
pub receive-IsStored :
    (cs : List ℕ) (u : Uart)
    → IsValid u
    → NoEnd cs
    → (active u).wrt_ptr + length cs ≤ rx_buflen
    → (u' : Uart) × (receive u cs ≡ some u')
      × IsStored u (stored u.last_c cs) u'
      × (u'.last_c ≡ last_after u.last_c cs)
unfolding receive stepped
receive-IsStored [] u v h fits = (u, refl, IsStored-refl u v, refl)
receive-IsStored (c ∷ cs) u v h fits =
    let one = set_active-IsStored u (unescape u.last_c c) c v (omega arith) in
    let (u', runs, rest, last) =
      receive-IsStored cs (stepped u c) one.valid h.1 (omega (arith, one.moved)) in
    (
      u',
      receive-cons u (stepped u c) c cs (proxy_rx_callback-stepped u c h.0 (omega arith)) ∙ runs,
      IsStored-trans u (stepped u c) u' (unescape u.last_c c) (stored c cs) one rest,
      last,
    )

-- ===== src/Opto/Queue.antt =====
-- The queue of packets as a list: it keeps the last eight, and a repeated packet counts once.
use nano1g_unicorn_c.Base.{
  ℕ, zero, suc, ◌+◌, ◌-◌, ◌%◌, ◌≤◌, ◌<◌, ◌≡◌, ◌≢◌, Bool, true, false, ◌&&◌, ltb, leb, ◌==◌,
  if◌then◌else◌, bit_and, List, [], ◌∷◌, ◌++◌, Array, store, store_self, store_ne, Bool-cases, inl,
  inr, refl, arith, ap, sym, ◌∙◌, ltb→lt, ltb→le, leb→le, leb→lt,
}
use nano1g_unicorn_c.Word.{u8, bit_and-low_three}
use nano1g_unicorn_c.State.{State, Opto}
use nano1g_unicorn_c.Opto.{
  push_packet, is_repeated, enqueue_status, drop_packet, clear_status, opto_value, packet,
}

-- `n` packets from the place `head` of the ring.
unfoldable pub items : Array ℕ → ℕ → ℕ → List ℕ
items queue head zero = []
items queue head (suc n) = queue (head % 8) ∷ items queue (head + 1) n

abbrev pub contents : Opto → List ℕ
contents o = items o.queue o.queue_head o.queue_len

pub record IsValid (o : Opto) : Type 0 where
  pub head_in : o.queue_head < 8
  pub len_in : o.queue_len ≤ 8

-- What a list does in the place of the ring.
unfoldable pub length : List ℕ → ℕ
length [] = 0
length (x ∷ xs) = 1 + length xs

unfoldable pub last_is : ℕ → List ℕ → Bool
last_is v [] = false
last_is v (x ∷ []) = x == v
last_is v (x ∷ (y ∷ ys)) = last_is v (y ∷ ys)

abbrev pub tail : List ℕ → List ℕ
tail [] = []
tail (x ∷ xs) = xs

unfoldable pub append_packet : List ℕ → ℕ → List ℕ
append_packet l status =
    if last_is status l then l else (if leb 8 (length l) then tail l else l) ++ (status ∷ [])

items-snoc :
    (queue : Array ℕ) (head n : ℕ)
    → items queue head (suc n) ≡ items queue head n ++ (queue ((head + n) % 8) ∷ [])
unfolding items
items-snoc queue head zero =
    let same : head + 0 ≡ head = omega arith in ap (λ i. queue (i % 8) ∷ []) (sym same)
items-snoc queue head (suc n) =
    let same : head + 1 + n ≡ head + suc n = omega arith in
    ap (λ l. queue (head % 8) ∷ l)
      (items-snoc queue (head + 1) n
        ∙ ap (λ i. items queue (head + 1) n ++ (queue (i % 8) ∷ [])) same)

items-wrap : (queue : Array ℕ) (h h' n : ℕ) → h % 8 ≡ h' % 8 → items queue h n ≡ items queue h' n
unfolding items
items-wrap queue h h' zero e = refl
items-wrap queue h h' (suc n) e =
    ap (λ i. queue i ∷ items queue (h + 1) n) e
    ∙ ap (λ l. queue (h' % 8) ∷ l) (items-wrap queue (h + 1) (h' + 1) n (omega arith))

items-store :
    (queue : Array ℕ) (v h d m : ℕ)
    → m ≤ d
    → d < 8
    → items (store queue ((h + d) % 8) v) h m ≡ items queue h m
unfolding items
items-store queue v h d zero le lt = refl
items-store queue v h d (suc m) le lt =
    let shift : h + 1 + (d - 1) ≡ h + d = omega arith in
    let apart : h % 8 ≢ (h + d) % 8 = omega arith in
    ap (λ x. x ∷ items (store queue ((h + d) % 8) v) (h + 1) m)
      (store_ne queue ((h + d) % 8) (h % 8) v apart)
    ∙ ap (λ l. queue (h % 8) ∷ l)
        (ap (λ i. items (store queue (i % 8) v) (h + 1) m) (sym shift)
          ∙ items-store queue v (h + 1) (d - 1) m (omega arith) (omega arith))

length-items : (queue : Array ℕ) (h n : ℕ) → length (items queue h n) ≡ n
unfolding items length
length-items queue h zero = refl
length-items queue h (suc n) = omega (arith, length-items queue (h + 1) n)

last_is-items :
    (queue : Array ℕ) (v h n : ℕ) → last_is v (items queue h (suc n)) ≡ (queue ((h + n) % 8) == v)
unfolding items last_is
last_is-items queue v h zero =
    let same : h + 0 ≡ h = omega arith in ap (λ i. queue (i % 8) == v) (sym same)
last_is-items queue v h (suc n) =
    let same : h + 1 + n ≡ h + suc n = omega arith in
    last_is-items queue v (h + 1) n ∙ ap (λ i. queue (i % 8) == v) same

repeated-items :
    (queue : Array ℕ) (v h n : ℕ)
    → (ltb 0 n && (queue (u8 (bit_and (h + n - 1) 7)) == v)) ≡ last_is v (items queue h n)
unfolding items last_is
repeated-items queue v h zero = refl
repeated-items queue v h (suc n) =
    let place : u8 (bit_and (h + suc n - 1) 7) ≡ (h + n) % 8 =
      omega (arith, bit_and-low_three (h + suc n - 1)) in
    let some_left : ltb 0 (suc n) ≡ true = ground arith in
    ap (λ b. b && (queue (u8 (bit_and (h + suc n - 1) 7)) == v)) some_left
    ∙ ap (λ i. queue i == v) place
    ∙ sym (last_is-items queue v h n)

-- A packet put behind `n` others.
items-push :
    (queue : Array ℕ) (v h n : ℕ)
    → n < 8
    → items (store queue (bit_and (h + n) 7) v) h (n + 1) ≡ items queue h n ++ (v ∷ [])
items-push queue v h n lt =
    let place = bit_and-low_three (h + n) in
    let next : n + 1 ≡ suc n = omega arith in
    let written = store queue ((h + n) % 8) v in
    ap (λ i. items (store queue i v) h (n + 1)) place
    ∙ ap (λ k. items written h k) next
    ∙ items-snoc written h n
    ∙ ap (λ x. items written h n ++ (x ∷ [])) (store_self queue ((h + n) % 8) v)
    ∙ ap (λ l. l ++ (v ∷ [])) (items-store queue v h n n (omega arith) lt)

-- What is left when the oldest of `n + 1` is gone.
items-drop :
    (queue : Array ℕ) (h n : ℕ) → items queue (bit_and (h + 1) 7) n ≡ tail (items queue h (suc n))
unfolding items
items-drop queue h n =
    items-wrap queue (bit_and (h + 1) 7) (h + 1) n (omega (arith, bit_and-low_three (h + 1)))

push-contents :
    (o : Opto) (v : ℕ)
    → IsValid o
    → contents (push_packet o v)
      ≡ (if leb 8 (length (contents o)) then tail (contents o) else contents o) ++ (v ∷ [])
unfolding push_packet
push-contents o v w = elim (Bool-cases (leb 8 o.queue_len)) [
  | inl h ↦
      let len : o.queue_len ≡ 8 = omega (arith, w.len_in, leb→le 8 o.queue_len h) in
      rw (length-items o.queue o.queue_head o.queue_len, h, len)
        (items-push o.queue v (bit_and (o.queue_head + 1) 7) 7 (omega arith)
          ∙ ap (λ l. l ++ (v ∷ [])) (items-drop o.queue o.queue_head 7))
  | inr h ↦
      rw (length-items o.queue o.queue_head o.queue_len, h)
        (items-push o.queue v o.queue_head o.queue_len (leb→lt 8 o.queue_len h))
]

push-IsValid : (o : Opto) (v : ℕ) → IsValid o → IsValid (push_packet o v)
unfolding push_packet
push-IsValid o v w = elim (Bool-cases (leb 8 o.queue_len)) [
  | inl h ↦ rw h (record {
    head_in = omega (arith, bit_and-low_three (o.queue_head + 1));
    len_in = omega (arith, w.len_in);
  })
  | inr h ↦ rw h (record { head_in = w.head_in; len_in = omega (arith, leb→lt 8 o.queue_len h) })
]

drop-IsValid : (o : Opto) → IsValid o → IsValid (drop_packet o)
unfolding drop_packet
drop-IsValid o w = elim (Bool-cases (ltb 0 o.queue_len)) [
  | inl h ↦ rw h (record {
    head_in = omega (arith, bit_and-low_three (o.queue_head + 1));
    len_in = omega (arith, w.len_in);
  })
  | inr h ↦ rw h w
]

drop-items :
    (queue : Array ℕ) (h n : ℕ)
    → 0 < n
    → items queue (bit_and (h + 1) 7) (n - 1) ≡ tail (items queue h n)
drop-items queue h zero pos = absurd (omega arith)
drop-items queue h (suc n) pos =
    let less : suc n - 1 ≡ n = omega arith in
    ap (λ k. items queue (bit_and (h + 1) 7) k) less ∙ items-drop queue h n

no-items : (queue : Array ℕ) (h n : ℕ) → n ≤ 0 → items queue h n ≡ tail (items queue h n)
unfolding items
no-items queue h zero le = refl
no-items queue h (suc n) le = absurd (omega arith)

drop-contents : (o : Opto) → contents (drop_packet o) ≡ tail (contents o)
unfolding drop_packet
drop-contents o = elim (Bool-cases (ltb 0 o.queue_len)) [
  | inl h ↦ rw h (drop-items o.queue o.queue_head o.queue_len (ltb→lt 0 o.queue_len h))
  | inr h ↦ rw h (no-items o.queue o.queue_head o.queue_len (ltb→le 0 o.queue_len h))
]

-- The packet that the guest reads: the oldest one.
abbrev pub first_or : ℕ → List ℕ → ℕ
first_or v [] = v
first_or v (x ∷ xs) = x

first-items :
    (queue : Array ℕ) (v h n : ℕ)
    → h < 8
    → (if n == 0 then v else queue h) ≡ first_or v (items queue h n)
unfolding items
first-items queue v h zero lt = refl
first-items queue v h (suc n) lt =
    let place : h ≡ h % 8 = omega arith in
    let some_left : (suc n == 0) ≡ false = ground arith in rw some_left (ap queue place)

enqueue-contents :
    (s : State) (status : ℕ)
    → IsValid s.opto
    → (contents (enqueue_status s status).opto ≡ append_packet (contents s.opto) status)
      × IsValid (enqueue_status s status).opto
unfolding enqueue_status is_repeated append_packet
enqueue-contents s status w =
    let o = s.opto in
    let last = repeated-items o.queue status o.queue_head o.queue_len in
    elim (Bool-cases (last_is status (contents o))) [
      | inl h ↦ rw (last, h) (refl, w)
      | inr h ↦ rw (last, h) (push-contents o status w, push-IsValid o status w)
    ]

-- The ring of eight packets is a list, on a valid queue: a new packet goes to its end unless the
-- newest one is the same, and pushes out the oldest of eight; an acknowledgement takes the oldest;
-- and the packet register shows the oldest, or the buttons when there is none. Both operations keep
-- the queue valid.
pub queue-is-list :
    (s : State) (status : ℕ)
    → IsValid s.opto
    → (contents (enqueue_status s status).opto ≡ append_packet (contents s.opto) status)
      × IsValid (enqueue_status s status).opto
      × (contents (clear_status s).opto ≡ tail (contents s.opto))
      × IsValid (clear_status s).opto
      × (opto_value s.opto 0x40 ≡ first_or (packet s.opto) (contents s.opto))
unfolding clear_status opto_value
queue-is-list s status w =
    let (a, b) = enqueue-contents s status w in
    (
      a,
      b,
      drop-contents s.opto,
      drop-IsValid s.opto w,
      first-items s.opto.queue (packet s.opto) s.opto.queue_head s.opto.queue_len w.head_in,
    )

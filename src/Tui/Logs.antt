-- ===== src/Tui/Logs.antt =====
-- internal/tui: the log buffer holds the newest texts of all that were displayed.
use ro_proxy.Prelude.{
  ℕ, zero, suc, ◌+◌, ◌-◌, ◌≤◌, ◌≡◌, refl, ap, sym, ◌∙◌, List, [], ◌∷◌, ◌++◌, append_assoc,
  append-nil, inl, inr, arith,
}
use ro_proxy.Prelude.{length, drop, ltb, length-append, length-drop, drop-append_left, Bool-cases}
use ro_proxy.Common.Base.{Bytes}
use ro_proxy.Tui.{
  LogMessage, VerbosityLevel, Dashboard, max_logs, displayed, log_batch, log_some, consume_logs,
  consume_batches,
}

module _ {ℓ} {A : Type ℓ} where
  -- The last `n` elements.
  abbrev pub last : ℕ → List A → List A
  last n xs = drop (length xs - n) xs

  drop-drop : (a b : ℕ) (xs : List A) → drop a (drop b xs) ≡ drop (b + a) xs
  drop-drop a zero xs = let e : 0 + a ≡ a = omega arith in rw e
  drop-drop zero (suc b) [] = let e : suc b + 0 ≡ suc b = omega arith in rw e
  drop-drop (suc a) (suc b) [] = let e : suc b + suc a ≡ suc (b + suc a) = omega arith in rw e
  drop-drop a (suc b) (x ∷ xs) =
      let e : suc b + a ≡ suc (b + a) = omega arith in rw e (drop-drop a b xs)

  last-all : (n : ℕ) (xs : List A) → length xs ≤ n → last n xs ≡ xs
  last-all n xs h = let e : length xs - n ≡ 0 = omega arith in rw e

  -- What is appended to the last elements decides with them which are the last.
  pub last-append : (n : ℕ) (xs ys : List A) → last n (last n xs ++ ys) ≡ last n (xs ++ ys)
  last-append n xs ys =
      let k : ℕ = length xs - n in
      let whole : drop k xs ++ ys ≡ drop k (xs ++ ys) =
        sym (drop-append_left k xs ys (omega arith)) in
      let size : (length xs - n) + (length (drop k xs ++ ys) - n) ≡ length (xs ++ ys) - n =
        omega (arith, length-append xs ys, length-append (drop k xs) ys, length-drop k xs) in
      ap (drop (length (drop k xs ++ ys) - n)) whole
      ∙ drop-drop (length (drop k xs ++ ys) - n) k (xs ++ ys)
      ∙ ap (λ m. drop m (xs ++ ys)) size

-- All messages of all batches.
abbrev pub all_messages : List (List LogMessage) → List LogMessage
all_messages [] = []
all_messages (b ∷ bs) = b ++ all_messages bs

displayed-append :
    (v : VerbosityLevel) (ms ns : List LogMessage)
    → displayed v (ms ++ ns) ≡ displayed v ms ++ displayed v ns
unfolding displayed
displayed-append v [] ns = refl
displayed-append v (m ∷ ms) ns = ground (arith, displayed-append v ms ns)

pub log_buffer-log_batch :
    (messages : List Bytes) (d : Dashboard)
    → (log_batch messages d).log_buffer ≡ last max_logs (d.log_buffer ++ messages)
unfolding log_batch
log_buffer-log_batch messages d =
    elim (Bool-cases (ltb max_logs (length (d.log_buffer ++ messages)))) [
      | inl over ↦ rw over refl
      | inr under ↦ rw under (sym (last-all max_logs (d.log_buffer ++ messages) (ground arith)))
    ]

log_buffer-log_some :
    (messages : List Bytes) (d : Dashboard)
    → length d.log_buffer ≤ max_logs
    → (log_some messages d).log_buffer ≡ last max_logs (d.log_buffer ++ messages)
log_buffer-log_some [] d h =
    sym (last-all max_logs d.log_buffer h) ∙ ap (last max_logs) (sym (append-nil d.log_buffer))
log_buffer-log_some (m ∷ ms) d h = log_buffer-log_batch (m ∷ ms) d

verbosity-log_some :
    (messages : List Bytes) (d : Dashboard)
    → (log_some messages d).verbosity_level ≡ d.verbosity_level
unfolding log_batch
verbosity-log_some [] d = refl
verbosity-log_some (m ∷ ms) d = refl

last_bound : (n : ℕ) (texts : List Bytes) → length (last n texts) ≤ n
last_bound n texts = omega (arith, length-drop (length texts - n) texts)

-- However the messages fall into batches, the buffer holds the newest 1000 texts of those it had and
-- those that pass the filter, in their order; it has to be within its bound at the start.
pub consume_batches-last :
    (bs : List (List LogMessage)) (d : Dashboard)
    → length d.log_buffer ≤ max_logs
    → (consume_batches bs d).log_buffer
      ≡ last max_logs (d.log_buffer ++ displayed d.verbosity_level (all_messages bs))
unfolding consume_batches consume_logs
consume_batches-last [] d h =
    sym (last-all max_logs d.log_buffer h) ∙ ap (last max_logs) (sym (append-nil d.log_buffer))
consume_batches-last (b ∷ bs) d h =
    let v : VerbosityLevel = d.verbosity_level in
    let texts : List Bytes = displayed v b in
    let next : Dashboard = log_some texts d in
    let now : next.log_buffer ≡ last max_logs (d.log_buffer ++ texts) =
      log_buffer-log_some texts d h in
    let later : List Bytes = displayed v (all_messages bs) in
    consume_batches-last bs next (rw now (last_bound max_logs (d.log_buffer ++ texts)))
    ∙ rw (verbosity-log_some texts d, now)
        (last-append max_logs (d.log_buffer ++ texts) later
          ∙ ap (last max_logs) (
              append_assoc d.log_buffer texts later
              ∙ ap (λ t. d.log_buffer ++ t) (sym (displayed-append v b (all_messages bs)))))

-- ===== src/Metrics/Scrape.antt =====
-- A reader of the text that get_prometheus_text makes.
use d_ro_cm.Base.{
  ℕ, ◌-◌, ◌<◌, ◌≡◌, refl, ◌∙◌, ap, Bool, true, false, Bool-cases, inl, inr, [], ◌∷◌, ◌++◌, Option,
  none, some, if◌then◌else◌, eqb, arith,
}
use d_ro_cm.Base.Bytes.{Bytes, codes, strip_prefix}
use d_ro_cm.Base.Bytes.Decimal.{
  to_string, read_number, read_number-to_string, to_string-AreDigits, AreDigits, HasDigit,
  to_string-HasDigit,
}
use d_ro_cm.Metrics.{Metrics, u64_mod, is_negative, show_int64, get_prometheus_text}

-- A signed number at the front, as an int64.
abbrev negated : Option (ℕ × Bytes) → Option ℕ
negated none = none
negated (some (n, rest)) = some (u64_mod - n)

abbrev plain : Option (ℕ × Bytes) → Option ℕ
plain none = none
plain (some (n, rest)) = some n

abbrev pub read_int64 : Bytes → Option ℕ
read_int64 [] = none
read_int64 (c ∷ s) = if eqb c b'-' then negated (read_number s) else plain (read_number (c ∷ s))

abbrev or_read : Option Bytes → Option ℕ → Option ℕ
or_read none rest = rest
or_read (some s) rest = read_int64 s

-- The sample of a metric: the number behind its name and a space, at the start of a line. The flag
-- is whether a line starts here.
abbrev pub sample : Bytes → Bool → Bytes → Option ℕ
sample name start [] = none
sample name start (c ∷ s) =
    let rest = sample name (eqb c b'\n') s in
    if start then or_read (strip_prefix name (c ∷ s)) rest else rest

read_int64-HasDigit : (s : Bytes) → HasDigit s → read_int64 s ≡ plain (read_number s)
read_int64-HasDigit [] h = absurd h
read_int64-HasDigit (c ∷ s) h = ground (arith, h)

-- A number and the end of its line.
read_int64-show_int64 :
    (v : ℕ) (tail : Bytes) → v < u64_mod → read_int64 (show_int64 v ++ b'\n' ∷ tail) ≡ some v
unfolding show_int64
read_int64-show_int64 v tail h = elim (Bool-cases (is_negative v)) [
  | inl neg ↦
      rw (neg, read_number-to_string (u64_mod - v) (b'\n' ∷ tail) refl) (ap some (omega arith))
  | inr pos ↦ rw pos (
      read_int64-HasDigit _ (to_string-HasDigit v (b'\n' ∷ tail))
      ∙ ap plain (read_number-to_string v (b'\n' ∷ tail) refl))
]

-- A number is passed over: no line starts in it, or right behind it.
sample-AreDigits :
    (name s tail : Bytes) → AreDigits s → sample name false (s ++ tail) ≡ sample name false tail
sample-AreDigits name [] tail h = refl
sample-AreDigits name (c ∷ s) tail h = ground (arith, h.0, sample-AreDigits name s tail h.1)

sample-show_int64 :
    (name : Bytes) (v : ℕ) (tail : Bytes)
    → sample name false (show_int64 v ++ tail) ≡ sample name false tail
unfolding show_int64
sample-show_int64 name v tail = elim (Bool-cases (is_negative v)) [
  | inl neg ↦ rw neg (sample-AreDigits name (to_string (u64_mod - v)) tail (to_string-AreDigits _))
  | inr pos ↦ rw pos (sample-AreDigits name (to_string v) tail (to_string-AreDigits v))
]

module _ (avg_us avg_ms : ℕ → ℕ → Bytes) where
  -- From counters that are 64-bit words, a reader that looks for a metric's name and a space at the
  -- start of a line finds in the text of the metrics the values of the gauge of nodes and of the
  -- two totals, whatever the other counters and whatever the texts of the averages.
  pub sample-get_prometheus_text :
      (m : Metrics)
      → m.nodes_online < u64_mod
      → m.heartbeat_miss_total < u64_mod
      → m.messages_sent_total < u64_mod
      → let text = get_prometheus_text avg_us avg_ms m in
        (sample (codes "drocm_nodes_online ") true text ≡ some m.nodes_online)
        × (sample (codes "drocm_heartbeat_miss_total ") true text ≡ some m.heartbeat_miss_total)
        × (sample (codes "drocm_messages_sent_total ") true text ≡ some m.messages_sent_total)
  unfolding get_prometheus_text
  sample-get_prometheus_text m h h' h'' = (
    read_int64-show_int64 m.nodes_online _ h,
    sample-show_int64 (codes "drocm_heartbeat_miss_total ") m.nodes_online _
        ∙ read_int64-show_int64 m.heartbeat_miss_total _ h',
    sample-show_int64 (codes "drocm_messages_sent_total ") m.nodes_online _
        ∙ sample-show_int64 (codes "drocm_messages_sent_total ") m.heartbeat_miss_total _
        ∙ read_int64-show_int64 m.messages_sent_total _ h'',
  )

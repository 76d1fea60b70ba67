-- ===== src/Jobs/LiveLog/Output.antt =====
-- The live view of a job whose agent may send its output again: what the Hub keeps is the end of what
-- the agent produced.
use asdl_hub.Prelude.{
  ℕ, ◌+◌, ◌-◌, ◌≤◌, ◌<◌, max, ◌≡◌, refl, sym, ap, ◌∙◌, subst, ◌⊎◌, inl, inr, false, ◌&&◌, List, [],
  ◌∷◌, ◌++◌, arith, ltb, leb, ltb→lt, tests, Bool-cases, length, take, drop, length-append,
  length-drop, length-take,
}
use asdl_hub.Jobs.LiveLog.{LiveLog, max_live_log, keep_last, unseen, append_log}
use asdl_hub.Jobs.LiveLog.Slices.{take-add, drop-append_le, drop-drop, drop-take}

-- The bytes that the agent sends from an offset on.
abbrev pub chunk_at : List ℕ → ℕ → ℕ → List ℕ
chunk_at out offset n = take n (drop offset out)

-- The log has seen the first `total` bytes of the job's output and holds the last of them, at most
-- `max_live_log`.
pub record Tracks (out : List ℕ) (l : LiveLog) : Type 0 where
  pub seen : l.total ≤ length out
  pub holds : l.buf ≡ drop (l.total - max_live_log) (take l.total out)

length-chunk_at :
    (out : List ℕ) (offset n : ℕ) → offset + n ≤ length out → length (chunk_at out offset n) ≡ n
length-chunk_at out offset n h =
    omega (arith, length-take n (drop offset out), length-drop offset out)

-- A resent chunk without what was seen is the output that follows what was seen.
unseen-chunk_at :
    (out : List ℕ) (total offset n : ℕ)
    → offset ≤ total
    → unseen total offset (chunk_at out offset n) ≡ chunk_at out total (offset + n - total)
unseen-chunk_at out total offset n h = elim (Bool-cases (ltb offset total)) [
  | inl resent ↦
      rw
        (
          resent,
          drop-take (total - offset) n (drop offset out),
          drop-drop (total - offset) offset out,
        )
        (ap₂_chunk (omega arith) (omega arith))
  | inr fresh ↦ rw fresh (ap₂_chunk (ground arith) (ground arith))
]
  where
    ap₂_chunk : {a b i j : ℕ} → a ≡ b → i ≡ j → take a (drop i out) ≡ take b (drop j out)
    ap₂_chunk p q = λ x. take (p x) (drop (q x) out)

drop_index : {i j : ℕ} (xs : List ℕ) → i ≡ j → drop i xs ≡ drop j xs
drop_index xs p = ap (λ (i : ℕ). drop i xs) p

keep_last-drop :
    (a : ℕ) (xs : List ℕ)
    → a ≤ length xs - max_live_log
    → keep_last (drop a xs) ≡ drop (length xs - max_live_log) xs
keep_last-drop a xs h = elim (Bool-cases (ltb max_live_log (length (drop a xs)))) [
  | inl long ↦
      rw (long, drop-drop (length (drop a xs) - max_live_log) a xs)
        (drop_index xs (omega (tests, length-drop a xs, ltb→lt _ _ long)))
  | inr short ↦
      rw short (drop_index xs (omega (arith, length-drop a xs, not_ltb max_live_log _ short)))
]
  where
    not_ltb : (m n : ℕ) → ltb m n ≡ false → n ≤ m
    not_ltb m n e = ground arith

-- Keeping the end of what was kept, with what is new, is keeping the end of everything.
keep_last_more :
    (seen fresh : List ℕ)
    → keep_last (drop (length seen - max_live_log) seen ++ fresh)
      ≡ drop (length seen + length fresh - max_live_log) (seen ++ fresh)
keep_last_more seen fresh =
    rw
      (
        ← drop-append_le (length seen - max_live_log) seen fresh (omega arith),
        ← length-append seen fresh,
      )
      (keep_last-drop (length seen - max_live_log) (seen ++ fresh)
        (omega (arith, length-append seen fresh)))

-- The end of the output up to an index.
abbrev last_of : List ℕ → ℕ → List ℕ
last_of out t = drop (t - max_live_log) (take t out)

buf_more :
    (out : List ℕ) (l : LiveLog) (k : ℕ)
    → Tracks out l
    → l.total + k ≤ length out
    → keep_last (l.buf ++ chunk_at out l.total k) ≡ last_of out (l.total + k)
buf_more out l k tracks h =
    let so_far : length (take l.total out) ≡ l.total =
      omega (arith, length-take l.total out, tracks.seen) in
    let kept : l.buf ≡ drop (length (take l.total out) - max_live_log) (take l.total out) =
      tracks.holds ∙ drop_index (take l.total out) (omega (arith, so_far)) in
    rw (kept, take-add l.total k out)
      (keep_last_more (take l.total out) (chunk_at out l.total k)
        ∙ drop_index (take l.total out ++ chunk_at out l.total k)
            (omega (arith, so_far, length-chunk_at out l.total k h)))

-- Both branches of `Append`.
append_log_buf :
    (l : LiveLog) (offset : ℕ) (chunk : List ℕ)
    → l.done ≡ false
    → ((offset < l.total)
        × (length chunk ≤ l.total - offset)
        × ((append_log offset chunk l).buf ≡ l.buf))
      ⊎ ((append_log offset chunk l).buf ≡ keep_last (l.buf ++ unseen l.total offset chunk))
unfolding append_log
append_log_buf l offset chunk live =
    elim (Bool-cases (ltb offset l.total && leb (length chunk) (l.total - offset))) [
      | inl known ↦ inl (ground arith, ground arith, rw (live, known) refl)
      | inr more ↦ inr (rw (live, more) refl)
    ]

module _ (out : List ℕ) (l : LiveLog) (offset n : ℕ) (tracks : Tracks out l) (live : l.done ≡ false)
    (no_gap : offset ≤ l.total) (inside : offset + n ≤ length out) where
  -- The hub has then seen the output up to the end of the chunk, or what it had seen if that is more.
  pub total-append_log :
      (append_log offset (chunk_at out offset n) l).total ≡ max l.total (offset + n)
  unfolding append_log
  total-append_log = ground (
    arith,
    length-chunk_at out offset n inside,
    length-drop (l.total - offset) (chunk_at out offset n),
  )

  -- An agent may send any part of its output again, as long as it leaves no gap: what the Hub holds
  -- stays the end of the output that it has seen.
  pub append_log-Tracks : Tracks out (append_log offset (chunk_at out offset n) l)
  append_log-Tracks = record {
    seen = omega (arith, total-append_log, tracks.seen);
    holds =
        let whole = length-chunk_at out offset n inside in
        elim (append_log_buf l offset (chunk_at out offset n) live) [
          | inl (before, within, same) ↦
              let up_to : l.total ≡ (append_log offset (chunk_at out offset n) l).total =
                omega (arith, total-append_log, whole) in
              same ∙ tracks.holds ∙ ap (last_of out) up_to
          | inr more ↦
              let up_to : l.total + (offset + n - l.total)
                  ≡ (append_log offset (chunk_at out offset n) l).total =
                omega (arith, total-append_log) in
              more
              ∙ ap (λ fresh. keep_last (l.buf ++ fresh))
                  (unseen-chunk_at out l.total offset n no_gap)
              ∙ buf_more out l (offset + n - l.total) tracks (omega (arith, tracks.seen))
              ∙ ap (last_of out) up_to
        ];
  }

-- Sends, each an offset and a length.
abbrev pub send_all : List ℕ → List (ℕ × ℕ) → LiveLog → LiveLog
send_all out [] l = l
send_all out ((offset, n) ∷ sends) l =
    send_all out sends (append_log offset (chunk_at out offset n) l)

-- Each send is a part of the output and starts no later than what was sent before it ends.
abbrev pub NoGaps : List ℕ → ℕ → List (ℕ × ℕ) → Type 0
NoGaps out upto [] = Unit
NoGaps out upto ((offset, n) ∷ sends) =
    (offset ≤ upto) × (offset + n ≤ length out) × NoGaps out (max upto (offset + n)) sends

abbrev pub furthest : ℕ → List (ℕ × ℕ) → ℕ
furthest upto [] = upto
furthest upto ((offset, n) ∷ sends) = furthest (max upto (offset + n)) sends

done-append_log :
    (l : LiveLog) (offset : ℕ) (chunk : List ℕ) → (append_log offset chunk l).done ≡ l.done
unfolding append_log
done-append_log l offset chunk = ground arith

-- Whatever parts of a live job's output an agent sends, and however often, as long as it leaves no gap:
-- the Hub ends with the last `max_live_log` bytes of the output up to the furthest byte sent.
pub send_all-Tracks :
    (out : List ℕ) (sends : List (ℕ × ℕ)) (l : LiveLog)
    → Tracks out l
    → l.done ≡ false
    → NoGaps out l.total sends
    → Tracks out (send_all out sends l) × ((send_all out sends l).total ≡ furthest l.total sends)
send_all-Tracks out [] l tracks live gaps = (tracks, refl)
send_all-Tracks out ((offset, n) ∷ sends) l tracks live gaps =
    let reached = total-append_log out l offset n tracks live gaps.0 gaps.1 in
    let (kept, upto) =
      send_all-Tracks out sends (append_log offset (chunk_at out offset n) l)
        (append_log-Tracks out l offset n tracks live gaps.0 gaps.1)
        (done-append_log l offset (chunk_at out offset n) ∙ live)
        (subst (λ t. NoGaps out t sends) (sym reached) gaps.2) in
    (kept, upto ∙ ap (λ t. furthest t sends) reached)

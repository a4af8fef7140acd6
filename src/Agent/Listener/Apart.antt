-- ===== src/Agent/Listener/Apart.antt =====
-- No connection of the listener waits for another.
use cs331_t011_kubernetes_se.Common.{
  ℕ, ◌+◌, ◌*◌, ◌<◌, ◌≤◌, ◌≡◌, refl, sym, ap, ◌⊎◌, inl, inr, true, List, [], ◌∷◌, ◌++◌, Memᴰ, All,
  All_at,
}
use mathlib.Core.Path.{subst}
use cs331_t011_kubernetes_se.Agent.Handshake.{Connection, opened, Move, Moves, none_yet}
use cs331_t011_kubernetes_se.Agent.Handshake
use cs331_t011_kubernetes_se.Agent.Handshake.Completed.{Moves-completed}
use cs331_t011_kubernetes_se.Agent.Listener.{
  Serve, accept_fails, accepts, moves, closes, Serving, ready, and_then,
}

module _ {ℓ κ} {A : Type ℓ} (P : A → Type κ) where
  All-replace :
      (before after : List A) (x y : A)
      → (P x → P y)
      → All P (before ++ x ∷ after)
      → All P (before ++ y ∷ after)
  All-replace [] after x y f h = (f h.0, h.1)
  All-replace (b ∷ before) after x y f h = (h.0, All-replace before after x y f h.1)

  All-remove :
      (before after : List A) (x : A) → All P (before ++ x ∷ after) → All P (before ++ after)
  All-remove [] after x h = h.1
  All-remove (b ∷ before) after x h = (h.0, All-remove before after x h.1)

split_at {ℓ} :
    {A : Type ℓ} {x : A} (xs : List A)
    → Memᴰ x xs
    → (before : List A) × (after : List A) × (xs ≡ before ++ x ∷ after)
split_at [] i = elim i [ ]
split_at (y ∷ xs) (Memᴰ.head e) = ([], xs, ap (λ z. z ∷ xs) (sym e))
split_at (y ∷ xs) (Memᴰ.tail i) =
    let (before, after, e) = split_at xs i in (y ∷ before, after, ap (λ zs. y ∷ zs) e)

module _ (buffer : ℕ) where
  -- The connection is as its own two ends have made it.
  abbrev pub IsOwn : Connection → Type 0
  IsOwn c = (payload_bytes : ℕ) × (n : ℕ) × Moves buffer payload_bytes n c

  Serve-IsOwn :
      {open_now open_next : List Connection}
      → Serve buffer open_now open_next
      → All IsOwn open_now
      → All IsOwn open_next
  Serve-IsOwn accept_fails own = own
  Serve-IsOwn (accepts payload_bytes) own = ((payload_bytes, 0, none_yet), own)
  Serve-IsOwn (moves before after {c} {d} e e' m) own = subst (All IsOwn) (sym e') (
      All-replace IsOwn before after c d
        (λ h. let (p, n, ms) = h in (p, _, Handshake.and_then ms m)) (subst (All IsOwn) e own))
  Serve-IsOwn (closes before c after e e') own =
      subst (All IsOwn) (sym e') (All-remove IsOwn before after c (subst (All IsOwn) e own))

  Serving-IsOwn : {open_now : List Connection} → Serving buffer open_now → All IsOwn open_now
  Serving-IsOwn ready = tt
  Serving-IsOwn (and_then before s) = Serve-IsOwn s (Serving-IsOwn before)

  -- Whatever connections come, fail and go at the listener, every open one has made a run of the
  -- handshake of its own, of at most two moves for each byte of its payload and two more; and if
  -- the buffer has a place, its prober has read its ack, or its two ends can move at once, which
  -- leaves the others as they are.
  pub Serving-apart :
      {open_now : List Connection} {c : Connection}
      → 0 < buffer
      → Serving buffer open_now
      → Memᴰ c open_now
      → (payload_bytes : ℕ) × (n : ℕ) × Moves buffer payload_bytes n c
        × (n ≤ 2 * payload_bytes + 2)
        × ((c.has_read ≡ true)
            ⊎ ((d : Connection) × (before : List Connection) × (after : List Connection) × (open_now
                  ≡ before ++ c ∷ after)
                × Move buffer c d
                × Serve buffer open_now (before ++ d ∷ after)))
  Serving-apart {open_now} place serving i =
      let (payload_bytes, n, ms) = All_at IsOwn open_now (Serving-IsOwn serving) i in
      let (go, few) = Moves-completed place ms in
      let (before, after, e) = split_at open_now i in
      (
        payload_bytes,
        n,
        ms,
        few,
        elim go [
          | inl done ↦ inl done
          | inr (d, m) ↦ inr (d, before, after, e, m, moves before after e refl m)
        ],
      )

-- ===== src/Mswin/Waiting.antt =====
-- `Select` on Windows, which puts the default socket into the read set during the call.
use light_lua.Prelude.{
  ◌∙◌, sym, inl, inr, ltb, Bool-cases, ℕ, ◌≡◌, refl, subst, ◌==◌, ℤ, Bool, true, ◌&&◌, ◌||◌, not,
  Option, none, some, arith,
}
use light_lua.Backend.{Selected, Double}
use light_lua.Posix.Kernel.{FdSets, Narrows, Timeval}
use light_lua.Posix.Calls.{to_timeval}
use light_lua.Mswin.Winsock.{Winsock, Process, WinsockSetLaws}
use light_lua.Mswin.Calls.{check_start}
use light_lua.Mswin.Ending.{select, clear_default}

-- The documented behaviour of `select` on its sets, and of `FD_CLR`.
pub record SelectLaws {W F : Type 0} (sys : Winsock W F) (fs : FdSets F) : Type 0 where
  pub narrows_r :
      (n : ℤ) (r w : Option F) (t : Timeval) (world : W)
      → Narrows fs r (sys.select n r w t world).0.r_set
  pub narrows_w :
      (n : ℤ) (r w : Option F) (t : Timeval) (world : W)
      → Narrows fs w (sys.select n r w t world).0.w_set
  pub isset_clr :
      (i j : ℕ) (s : F) → fs.fd_isset i (sys.fd_clr j s) ≡ (not (i == j) && fs.fd_isset i s)

&&-left : (a c : Bool) → (a && c) ≡ true → a ≡ true
&&-left a c h = ground arith

&&-right : (a c : Bool) → (a && c) ≡ true → c ≡ true
&&-right a c h = ground arith

||-other : (a c : Bool) → not a ≡ true → (a || c) ≡ true → c ≡ true
||-other a c n h = ground arith

module _ {W F : Type 0} (sys : Winsock W F) (fs : FdSets F) (set_laws : WinsockSetLaws fs)
    (laws : SelectLaws sys fs) where
  -- FD_SET adds nothing but its socket.
  isset_set-only :
      (i j : ℕ) (s : F)
      → fs.fd_isset i (fs.fd_set j s) ≡ true
      → ((i == j) || fs.fd_isset i s) ≡ true
  isset_set-only i j s h = elim (Bool-cases (ltb (set_laws.count s) fs.fd_setsize)) [
    | inl e ↦ sym (set_laws.isset_room i j s (ground (arith, e))) ∙ h
    | inr e ↦ ground (arith, sym (set_laws.isset_full i j s (ground (arith, e))) ∙ h)
  ]

  clear_default-Narrows :
      (d : ℕ) (r : F) (o : Option F)
      → Narrows fs (some (fs.fd_set d r)) o
      → Narrows fs (some r) (clear_default sys fs d o)
  unfolding clear_default
  clear_default-Narrows d r (some t) narrow = λ j h.
      let both = subst (λ b. b ≡ true) (laws.isset_clr j d t) h in
      let before = isset_set-only j d r (narrow j (&&-right _ _ both)) in
      ||-other (j == d) (fs.fd_isset j r) (&&-left _ _ both) before
  clear_default-Narrows d r none narrow = narrow

  -- Where the system's `select` adds no descriptors, neither does `Select`, although the default
  -- socket is in the read set during the call; without a read set it is undefined.
  pub select-Narrows :
      (max : ℤ) (r : F) (w_set : Option F) (timeout : Double) (time : Timeval) (g : Process W)
      → to_timeval sys.doubles timeout ≡ some time
      → (sel : Selected F) × (g' : Process W) × (select sys fs max (some r) w_set timeout g
          ≡ some (sel, g'))
        × Narrows fs (some r) sel.r_set
        × Narrows fs w_set sel.w_set
        × (select sys fs max none w_set timeout g ≡ none)
  unfolding select clear_default
  select-Narrows max r w_set timeout time g h =
      let g1 = (check_start sys g).1 in
      let d = g1.default_socket in
      let held = some (fs.fd_set d r) in
      let call = sys.select max held w_set time g1.world in
      (
        record (call.0) { r_set = clear_default sys fs d call.0.r_set },
        record g1 { world = call.1 },
        rw (select, h) refl,
        clear_default-Narrows d r (sys.select max held w_set time g1.world).0.r_set
            (laws.narrows_r max held w_set time g1.world),
        laws.narrows_w max held w_set time g1.world,
        refl,
      )

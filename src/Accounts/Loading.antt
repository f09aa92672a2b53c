-- ===== src/Accounts/Loading.antt =====
-- An account that was set up by `load_init` in account_load.rs, and what later loads read of it.
use raydium_cp_swap.Base.{
  ℕ, ◌+◌, ◌≤◌, ◌≡◌, ◌≢◌, refl, sym, ap, ◌∙◌, true, List, ◌++◌, ok, err, take_apart, require, assert,
  require-ok, leb, leb-true, ==_true, ==_false, ◌==◌, ok_injective, arith,
}
use raydium_cp_swap.Base.Lists.{length}
use raydium_cp_swap.Base.Slices.{
  take, drop, from_le_bytes, take-++, drop-++, length-++, same_bytes_self,
}
use raydium_cp_swap.Error.{Error}
use raydium_cp_swap.Accounts.{
  AccountInfo, ZeroCopy, view_bytes, check_discriminator, check_owner, try_from, load_init, load,
  load_mut, load_data_mut, write_state,
}

module _ {T : Type 0} (zc : ZeroCopy T) where
  -- Anchor's discriminators have 8 bytes that are not all 0; bytemuck reads back what it writes.
  pub record IsZeroCopy : Type 0 where
    pub eight : length zc.discriminator ≡ 8
    pub not_zero : from_le_bytes zc.discriminator ≢ 0
    pub size : (t : T) → length (zc.to_bytes t) ≡ zc.size_of
    pub same : (t : T) → zc.from_bytes (zc.to_bytes t) ≡ t

  -- The bytes of an account of the type that holds a state.
  abbrev laid_out : T → List ℕ → List ℕ
  laid_out t rest = zc.discriminator ++ (zc.to_bytes t ++ rest)

module _ {T : Type 0} (zc : ZeroCopy T) (laws : IsZeroCopy zc) where
  laid_out-long :
      (t : T) (rest : List ℕ)
      → (zc.size_of + 8 ≤ length (laid_out zc t rest))
        × (length zc.discriminator ≤ length (laid_out zc t rest))
  laid_out-long t rest =
      let l1 = length-++ zc.discriminator (zc.to_bytes t ++ rest) in
      let l2 = length-++ (zc.to_bytes t) rest in
      let e = laws.eight in let s = laws.size t in (omega arith, omega arith)

  check_discriminator-eq :
      (t : T) (rest : List ℕ) → check_discriminator zc (laid_out zc t rest) ≡ ok tt
  unfolding check_discriminator
  check_discriminator-eq t rest =
      let (long, disc) = laid_out-long t rest in
      rw
        (
          leb-true (length zc.discriminator) (length (laid_out zc t rest)) disc,
          leb-true 8 (length (laid_out zc t rest)) (omega arith),
          take-++ 8 zc.discriminator (zc.to_bytes t ++ rest) laws.eight,
          same_bytes_self zc.discriminator,
        )
        refl

  view_bytes-eq : (t : T) (rest : List ℕ) → view_bytes zc (laid_out zc t rest) ≡ ok t
  unfolding view_bytes
  view_bytes-eq t rest =
      rw
        (
          leb-true (zc.size_of + 8) (length (laid_out zc t rest)) (laid_out-long t rest).0,
          drop-++ 8 zc.discriminator (zc.to_bytes t ++ rest) laws.eight,
          take-++ zc.size_of (zc.to_bytes t) rest (laws.size t),
          laws.same t,
        )
        refl

  -- How an account is left by `load_init`: writable, with the discriminator in front of its bytes.
  record IsSetUp (a b : AccountInfo) : Type 0 where
    same_owner : b.owner ≡ a.owner
    writable : b.is_writable ≡ true
    contents : b.bytes ≡ zc.discriminator ++ drop 8 a.bytes

  load_init-IsSetUp :
      (a : AccountInfo) {b : AccountInfo} {t : T} → load_init zc a ≡ ok (b, t) → IsSetUp a b
  unfolding load_init
  load_init-IsSetUp a {b} {t} h = take_apart (require a.is_writable _) h λ _ e1 h1.
      take_apart (assert (leb 8 (length a.bytes))) h1 λ _ e2 h2.
        take_apart (require (from_le_bytes (take 8 a.bytes) == 0) _) h2 λ _ e3 h3.
          take_apart (view_bytes zc (zc.discriminator ++ drop 8 a.bytes)) h3 λ s e4 h4.
            simp (sym (ap (λ q. q.0) (ok_injective h4))) (record {
              same_owner = refl;
              writable = require-ok a.is_writable _ e1;
              contents = refl;
            })

  write_state-eq :
      (b : AccountInfo) (rest : List ℕ) (t : T)
      → b.bytes ≡ zc.discriminator ++ rest
      → (write_state zc b t).bytes ≡ laid_out zc t (drop (zc.size_of + 8) b.bytes)
  unfolding write_state
  write_state-eq b rest t e = rw (e, take-++ 8 zc.discriminator rest laws.eight) refl

  write_state-same :
      (b : AccountInfo) (t : T)
      → ((write_state zc b t).owner ≡ b.owner) × ((write_state zc b t).is_writable ≡ b.is_writable)
  unfolding write_state
  write_state-same b t = (refl, refl)

  -- An account of the program that `load_init` has set up, and to whose state a value was written,
  -- passes `try_from`, and `load`, `load_mut` and `load_data_mut` read that value; a second
  -- `load_init` fails, since the discriminator is set.
  pub load-load_init :
      (a : AccountInfo) (t : T) {b : AccountInfo} {s : T}
      → a.owner ≡ zc.owner
      → load_init zc a ≡ ok (b, s)
      → (try_from zc (write_state zc b t) ≡ ok (write_state zc b t))
        × (load zc (write_state zc b t) ≡ ok t)
        × (load_mut zc (write_state zc b t) ≡ ok t)
        × (load_data_mut zc (write_state zc b t) ≡ ok t)
        × (load_init zc (write_state zc b t) ≡ err Error.account_discriminator_already_set)
  unfolding try_from check_owner load load_mut load_data_mut load_init
  load-load_init a t {b} {s} own h =
      let up = load_init-IsSetUp a h in
      let (same_owner, same_writable) = write_state-same b t in
      let rest = drop (zc.size_of + 8) b.bytes in
      let bytes = write_state-eq b (drop 8 a.bytes) t up.contents in
      let checked = ap (check_discriminator zc) bytes ∙ check_discriminator-eq t rest in
      let viewed = ap (view_bytes zc) bytes ∙ view_bytes-eq t rest in
      let owned = ==_true (write_state zc b t).owner zc.owner (same_owner ∙ up.same_owner ∙ own) in
      let writes = same_writable ∙ up.writable in
      let (long, _) = laid_out-long t rest in
      let enough =
        ap (λ d. leb 8 (length d)) bytes ∙ leb-true 8 (length (laid_out zc t rest)) (omega arith) in
      let front =
        ap (take 8) bytes ∙ take-++ 8 zc.discriminator (zc.to_bytes t ++ rest) laws.eight in
      let set =
        ap (λ d. from_le_bytes d == 0) front
        ∙ ==_false (from_le_bytes zc.discriminator) 0 laws.not_zero in
      (
        rw (owned, checked) refl,
        rw (checked, viewed) refl,
        rw (writes, checked, viewed) refl,
        rw (owned, writes, checked, viewed) refl,
        rw (writes, enough, set) refl,
      )

-- ===== src/Nginx/Writer/Atomic.antt =====
-- internal/nginx/writer.go: the file is never seen half written.
use cf_local.Prelude.{
  ℕ, ◌≡◌, refl, sym, ap, ◌∙◌, ◌≢◌, ◌⊎◌, inl, inr, true, false, not, none, some, [], ◌∷◌, ◌++◌,
  arith, ◌==◌, length, length-append, All, Bytes, codes, equal, equal_iff, equal-ne, lookup, delete,
  insert, lookup-insert_self, lookup-insert_ne, lookup-delete_self, append_nil, snoc_append,
  lookup-delete_ne, if_intro,
}
use cf_local.Nginx.Writer.{
  trim_slashes, last_element, Disk, WriteError, Calls, Trace, base, tmp_name, rename_file,
  remove_file, last_disk, sync_parent, write_steps, write_atomic,
}

-- The temporary name is another one: it is longer.
tmp_name-ne : (name : Bytes) → tmp_name name ≢ name
unfolding tmp_name
tmp_name-ne name e =
    let l : length (b'.' ∷ name ++ codes ".tmp") ≡ length name = ap length e in
    omega (arith, l, length-append name (codes ".tmp"))

-- The disk has at `name` the old file or the whole new one, and no other file is changed but the
-- temporary one.
abbrev pub OldOrNew : Bytes → Bytes → Disk → Disk → Type 0
OldOrNew name contents d e =
    ((lookup name e ≡ lookup name d) ⊎ (lookup name e ≡ some contents))
    × ((other : Bytes) → other ≢ name → other ≢ tmp_name name → lookup other e ≡ lookup other d)

module _ (name contents : Bytes) (d : Disk) where
  tmp_kept : (v : Bytes) → OldOrNew name contents d (insert (tmp_name name) v d)
  tmp_kept v = (
    inl (lookup-insert_ne (tmp_name name) name v d (tmp_name-ne name)),
    λ other n m. lookup-insert_ne (tmp_name name) other v d (λ e. m (sym e)),
  )

  removed_kept :
      (calls : Calls) (v : Bytes)
      → OldOrNew name contents d (remove_file calls (tmp_name name) (insert (tmp_name name) v d))
  unfolding remove_file
  removed_kept calls v =
      if_intro (OldOrNew name contents d) calls.remove_ok
        (
          inl (
              lookup-delete_ne (tmp_name name) name _ (tmp_name-ne name)
              ∙ lookup-insert_ne (tmp_name name) name v d (tmp_name-ne name)),
          λ other n m.
              lookup-delete_ne (tmp_name name) other _ (λ e. m (sym e)) ∙ (tmp_kept v).1 other n m,
        )
        (tmp_kept v)

  renamed_lem :
      rename_file (tmp_name name) name (insert (tmp_name name) contents d)
      ≡ insert name contents (delete (tmp_name name) (insert (tmp_name name) contents d))
  unfolding rename_file
  renamed_lem = rw (lookup-insert_self (tmp_name name) contents d, rename_file) refl

  renamed :
      lookup name (rename_file (tmp_name name) name (insert (tmp_name name) contents d))
      ≡ some contents
  renamed = rw renamed_lem (lookup-insert_self name contents _)

  rename_kept :
      OldOrNew name contents d
        (rename_file (tmp_name name) name (insert (tmp_name name) contents d))
  rename_kept = (
    inr renamed,
    λ other n m. rw renamed_lem (
        lookup-insert_ne name other contents _ (λ e. n (sym e))
        ∙ lookup-delete_ne (tmp_name name) other _ (λ e. m (sym e))
        ∙ (tmp_kept contents).1 other n m),
  )

  -- What a call of WriteAtomic promises, at every moment and at its end.
  record Promise (t : Trace) : Type 0 where
    always : All (OldOrNew name contents d) t.disks
    done :
        t.failure ≡ none
        → (lookup name (last_disk d t.disks) ≡ some contents)
          × (lookup (tmp_name name) (last_disk d t.disks) ≡ none)

  failed :
      (calls : Calls) (e : WriteError) (v : Bytes)
      → Promise (record {
        disks =
            insert (tmp_name name) [] d
            ∷ insert (tmp_name name) v d
            ∷ remove_file calls (tmp_name name) (insert (tmp_name name) v d)
            ∷ [];
        failure = some e;
      })
  failed calls e v = record {
    always = (tmp_kept [], (tmp_kept v, (removed_kept calls v, tt)));
    done = λ h. cc;
  }

  tmp_gone :
      lookup (tmp_name name) (rename_file (tmp_name name) name (insert (tmp_name name) contents d))
      ≡ none
  tmp_gone = rw renamed_lem (
      lookup-insert_ne name (tmp_name name) contents _ (λ e. tmp_name-ne name (sym e))
      ∙ lookup-delete_self (tmp_name name) _)

  write_steps-Promise : (calls : Calls) → Promise (write_steps calls name contents d)
  unfolding write_steps last_disk
  write_steps-Promise calls =
      if_intro Promise (not calls.open_ok) (record { always = tt; done = λ h. cc })
        (if_intro Promise (not calls.write_ok) (failed calls _ _) (
          if_intro Promise (not calls.sync_ok) (failed calls _ _) (
            if_intro Promise (not calls.close_ok) (failed calls _ _) (
              if_intro Promise (not calls.rename_ok) (failed calls _ _) (record {
                always = (tmp_kept [], (tmp_kept contents, (rename_kept, tt)));
                done = λ h. (renamed, tmp_gone);
              })))))

  write_atomic-Promise : (calls : Calls) → Promise (write_atomic calls name contents d)
  unfolding write_atomic
  write_atomic-Promise calls =
      if_intro Promise (equal name []) (record { always = tt; done = λ h. cc })
        (if_intro Promise (not (equal (base name) name)) (record { always = tt; done = λ h. cc })
          (write_steps-Promise calls))

  -- Whatever the operating system answers, behind every system call of WriteAtomic the file has its
  -- old contents or all of the new ones, and no other file but the temporary one is touched. When it
  -- reports success, the file has the new contents and the temporary file is gone.
  pub write_atomic_lem :
      (calls : Calls)
      → All (OldOrNew name contents d) (write_atomic calls name contents d).disks
        × ((write_atomic calls name contents d).failure ≡ none
            → (lookup name (last_disk d (write_atomic calls name contents d).disks) ≡ some contents)
              × (lookup (tmp_name name) (last_disk d (write_atomic calls name contents d).disks)
                  ≡ none))
  write_atomic_lem calls = let p = write_atomic-Promise calls in (p.always, p.done)

abbrev pub SlashFree : Bytes → Type 0
SlashFree = All (λ c. c ≢ b'/')

slash_test : (c : ℕ) → c ≢ b'/' → (c == b'/') ≡ false
slash_test c h = ground arith

trim_slashes_lem : (s : Bytes) → SlashFree s → trim_slashes s ≡ s
unfolding trim_slashes
trim_slashes_lem [] h = refl
trim_slashes_lem (c ∷ s) h = rw (trim_slashes_lem s h.1) (ground (arith, slash_test c h.0))

last_element_lem : (seen s : Bytes) → SlashFree s → last_element seen s ≡ seen ++ s
unfolding last_element
last_element_lem seen [] h = sym (append_nil seen)
last_element_lem seen (c ∷ s) h =
    rw (slash_test c h.0, last_element)
      (last_element_lem (seen ++ c ∷ []) s h.1 ∙ snoc_append seen c s)

base_lem : (s : Bytes) → s ≢ [] → SlashFree s → base s ≡ s
unfolding base
base_lem s n h =
    rw (trim_slashes_lem s h) (rw (last_element_lem [] s h) (ground (arith, equal-ne s [] n)))

abbrev pub AllOk : Calls → Type 0
AllOk calls =
    (calls.open_ok ≡ true)
    × (calls.write_ok ≡ true)
    × (calls.sync_ok ≡ true)
    × (calls.close_ok ≡ true)
    × (calls.rename_ok ≡ true)
    × (calls.open_dir_ok ≡ true)
    × (calls.sync_dir_ok ≡ true)
    × (calls.close_dir_ok ≡ true)

-- A name that is not empty and has no slash is written whenever every system call succeeds.
pub write_atomic_complete :
    (calls : Calls) (name contents : Bytes) (d : Disk)
    → name ≢ []
    → SlashFree name
    → AllOk calls
    → (write_atomic calls name contents d).failure ≡ none
unfolding write_atomic write_steps sync_parent
write_atomic_complete calls name contents d n h fine =
    let b : equal (base name) name ≡ true = (equal_iff (base name) name).1 (base_lem name n h) in
    ground (arith, equal-ne name [] n)

-- ===== src/Configuration/Cleaned.antt =====
-- internal/configuration/model.go: cleaned lists are left as they are.
use atlas_dns.Base.{
  String, ◌≡◌, refl, sym, ap, ◌∙◌, subst, inl, inr, Bool, true, false, ◌||◌, List, [], ◌∷◌, map,
  arith, str_eq, eq_iff, Bool-cases, take, All,
}
use atlas_dns.Base.Order.{less_asym}
use atlas_dns.Base.Sort.{
  insert_by, sort_by, insert_by-All, sort_by-All, sort_by-sort_by, map_fixed, All-map,
}
use atlas_dns.Configuration.Model.{DhcpConfig, DhcpStaticLease, Schedule}
use atlas_dns.Configuration.Clean.{
  Texts, TextLaws, member, clean_ordered, first_of_each, lower_less, clean_set, canonical_schedule,
  canonical_lease, lease_less, canonicalise_dhcp,
}

str_eq_sym : (a b : String) → str_eq a b ≡ false → str_eq b a ≡ false
str_eq_sym a b h = elim (Bool-cases (str_eq b a)) [
  | inl same ↦ ground (arith, eq_iff a b, eq_iff b a)
  | inr other ↦ other
]

module _ (t : Texts) where
  -- A value that cleaning keeps.
  abbrev pub IsClean : String → Type 0
  IsClean v = (t.trim v ≡ v) × (str_eq v "" ≡ false)

  -- A list that has no value of the key; one with no key twice; and one with no key that was seen.
  abbrev pub Fresh : String → List String → Type 0
  Fresh key xs = All (λ y. str_eq key (t.lower y) ≡ false) xs

  abbrev pub Distinct : List String → Type 0
  Distinct [] = Unit
  Distinct (x ∷ xs) = Fresh (t.lower x) xs × Distinct xs

  abbrev pub Avoids : List String → List String → Type 0
  Avoids seen xs = All (λ y. member (t.lower y) seen ≡ false) xs

  module _ (laws : TextLaws t) where
    pub trim-IsClean : (v : String) → str_eq (t.trim v) "" ≡ false → IsClean (t.trim v)
    trim-IsClean v h = (laws.trim-trim v, h)

    Avoids-tail :
        (key : String) (seen xs : List String)
        → Avoids (key ∷ seen) xs
        → Avoids seen xs × Fresh key xs
    Avoids-tail key seen [] h = (tt, tt)
    Avoids-tail key seen (x ∷ xs) (h, hs) = let (a, b) = Avoids-tail key seen xs hs in ground arith

    Avoids-cons :
        (key : String) (seen xs : List String)
        → Avoids seen xs
        → Fresh key xs
        → Avoids (key ∷ seen) xs
    Avoids-cons key seen [] a f = tt
    Avoids-cons key seen (x ∷ xs) (a, as') (f, fs) = (ground arith, Avoids-cons key seen xs as' fs)

    pub first_of_each_lem :
        (seen vs : List String)
        → let kept = first_of_each t seen vs in All IsClean kept × Avoids seen kept × Distinct kept
    unfolding first_of_each
    first_of_each_lem seen [] = (tt, tt, tt)
    first_of_each_lem seen (v ∷ vs) =
        let w = t.trim v in
        elim (Bool-cases (str_eq w "" || member (t.lower w) seen)) [
          | inl skip ↦
              subst (λ kept. All IsClean kept × Avoids seen kept × Distinct kept)
                (sym (skipped skip)) (first_of_each_lem seen vs)
          | inr take ↦
              let (clean, avoids, distinct) = first_of_each_lem (t.lower w ∷ seen) vs in
              let (rest, fresh) =
                Avoids-tail (t.lower w) seen (first_of_each t (t.lower w ∷ seen) vs) avoids in
              subst (λ kept. All IsClean kept × Avoids seen kept × Distinct kept) (sym (taken take))
                ((trim-IsClean v (ground arith), clean), (ground arith, rest), (fresh, distinct))
        ]
      where
        skipped :
            str_eq (t.trim v) "" || member (t.lower (t.trim v)) seen ≡ true
            → first_of_each t seen (v ∷ vs) ≡ first_of_each t seen vs
        skipped h = rw h

        taken :
            str_eq (t.trim v) "" || member (t.lower (t.trim v)) seen ≡ false
            → first_of_each t seen (v ∷ vs)
              ≡ t.trim v ∷ first_of_each t (t.lower (t.trim v) ∷ seen) vs
        taken h = rw h

    insert_by-Distinct :
        (x : String) (ys : List String)
        → Fresh (t.lower x) ys
        → Distinct ys
        → Distinct (insert_by (lower_less t) x ys)
    unfolding insert_by
    insert_by-Distinct x [] f d = (tt, tt)
    insert_by-Distinct x (y ∷ ys) (f, fs) (g, ds) = elim (Bool-cases (lower_less t y x)) [
      | inl b ↦
          let kept =
            insert_by-All (lower_less t) (λ z. str_eq (t.lower y) (t.lower z) ≡ false) x ys
              (str_eq_sym (t.lower x) (t.lower y) f) g in
          let rest = insert_by-Distinct x ys fs ds in rw b (kept, rest)
      | inr b ↦ rw b ((f, fs), (g, ds))
    ]

    pub sort_by-Distinct : (xs : List String) → Distinct xs → Distinct (sort_by (lower_less t) xs)
    unfolding sort_by
    sort_by-Distinct [] d = tt
    sort_by-Distinct (x ∷ xs) (f, d) =
        insert_by-Distinct x (sort_by (lower_less t) xs)
          (sort_by-All (lower_less t) (λ y. str_eq (t.lower x) (t.lower y) ≡ false) xs f)
          (sort_by-Distinct xs d)

    first_of_each_fixed :
        (seen xs : List String)
        → All IsClean xs
        → Distinct xs
        → Avoids seen xs
        → first_of_each t seen xs ≡ xs
    unfolding first_of_each
    first_of_each_fixed seen [] c d a = refl
    first_of_each_fixed seen (x ∷ xs) ((same, full), cs) (f, d) (a, as') =
        let rest =
          first_of_each_fixed (t.lower x ∷ seen) xs cs d (Avoids-cons (t.lower x) seen xs as' f) in
        rw same (rw full (rw a (rw rest)))

    nothing_seen : (xs : List String) → Avoids [] xs
    nothing_seen [] = tt
    nothing_seen (x ∷ xs) = (refl, nothing_seen xs)

    pub clean_set-clean_set : (xs : List String) → clean_set t (clean_set t xs) ≡ clean_set t xs
    unfolding clean_set
    clean_set-clean_set xs =
        let kept = first_of_each t [] xs in
        let sorted = sort_by (lower_less t) kept in
        let (clean, avoids, distinct) = first_of_each_lem [] xs in
        ap (sort_by (lower_less t)) (
          first_of_each_fixed [] sorted (sort_by-All (lower_less t) IsClean kept clean)
            (sort_by-Distinct kept distinct) (nothing_seen sorted))
        ∙ sort_by-sort_by (lower_less t) (λ a b. less_asym (t.lower a) (t.lower b)) kept

    pub clean_ordered-clean_ordered :
        (xs : List String) → clean_ordered t (clean_ordered t xs) ≡ clean_ordered t xs
    unfolding clean_ordered
    clean_ordered-clean_ordered [] = refl
    clean_ordered-clean_ordered (v ∷ vs) = elim (Bool-cases (str_eq (t.trim v) "")) [
      | inl blank ↦ rw blank (clean_ordered-clean_ordered vs)
      | inr full ↦ rw full (
          rw (laws.trim-trim v)
            (rw full (ap (λ rest. t.trim v ∷ rest) (clean_ordered-clean_ordered vs))))
    ]

    pub canonical_schedule_fixed :
        (s : Schedule) → canonical_schedule t (canonical_schedule t s) ≡ canonical_schedule t s
    unfolding canonical_schedule
    canonical_schedule_fixed s = λ i. record s { time_zone = laws.trim-trim s.time_zone i }

    canonical_lease_fixed :
        (l : DhcpStaticLease) → canonical_lease t (canonical_lease t l) ≡ canonical_lease t l
    unfolding canonical_lease
    canonical_lease_fixed l =
        let mac_same : t.lower (t.trim (t.lower (t.trim l.mac))) ≡ t.lower (t.trim l.mac) =
          ap t.lower (laws.trim-lower-trim l.mac) ∙ laws.lower-lower (t.trim l.mac) in
        λ i. record {
          mac = mac_same i;
          ip = laws.trim-trim l.ip i;
          hostname = laws.trim-trim l.hostname i;
        }

    -- A sort of canonical elements is canonical.
    pub sort_by-map_fixed :
        {A : Type 0} (before : A → A → Bool) (f : A → A) (xs : List A)
        → ((x y : A) → before x y ≡ true → before y x ≡ false)
        → ((x : A) → f (f x) ≡ f x)
        → sort_by before (map f (sort_by before (map f xs))) ≡ sort_by before (map f xs)
    sort_by-map_fixed before f xs asym idem =
        let sorted = sort_by before (map f xs) in
        let same : map f sorted ≡ sorted =
          map_fixed f sorted
            (sort_by-All before (λ x. f x ≡ x) (map f xs) (All-map (λ x. f x ≡ x) f xs idem)) in
        ap (sort_by before) same ∙ sort_by-sort_by before asym (map f xs)

    pub canonicalise_dhcp_fixed :
        (c : DhcpConfig) → canonicalise_dhcp t (canonicalise_dhcp t c) ≡ canonicalise_dhcp t c
    unfolding canonicalise_dhcp
    canonicalise_dhcp_fixed c =
        let leases =
          sort_by-map_fixed (lease_less t) (canonical_lease t) c.static_leases
            (λ a b. less_asym a.mac b.mac) canonical_lease_fixed in
        λ i. record c {
          interface_name = laws.trim-trim c.interface_name i;
          static_leases = leases i;
        }

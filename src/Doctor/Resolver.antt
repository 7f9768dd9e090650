-- ===== src/Doctor/Resolver.antt =====
-- When src/shared/doctor.ts finds the resolver healthy.
use wslpad.Base.{
  ◌↔◌, sym, ◌∙◌, ◌≡◌, ◌≢◌, refl, Bool-cases, ◌⊎◌, inl, inr, true, false, not, ◌&&◌, Text, List, [],
  ◌∷◌, Option, none, some, arith, select, is_empty, if_elim, one_of, same, same_iff, In, All,
}
use wslpad.Doctor.{healthy, DoctorCheckResult, DnsInfo, DashboardSnapshot, truthy}
use wslpad.Doctor.Network.{
  is_off, is_incomplete, strangers, dns_problems, judge_dns, judge_resolver, check_dns,
}

In-one_of : (s : Text) (ts : List Text) → In s ts → one_of s ts ≡ true
In-one_of s [] m = elim m [ ]
In-one_of s (t ∷ ts) (inl e) = rw ((same_iff s t).1 e) refl
In-one_of s (t ∷ ts) (inr m) = ground (arith, In-one_of s ts m)

true≢false : true ≢ false
true≢false e = cc

one_of-In : (s : Text) (ts : List Text) → one_of s ts ≡ true → In s ts
one_of-In s [] h = cc
one_of-In s (t ∷ ts) h = elim (Bool-cases (same s t)) [
  | inl e ↦ inl ((same_iff s t).0 e)
  | inr e ↦ inr (one_of-In s ts (ground arith))
]

select-All :
    (names adapter : List Text)
    → is_empty (select (λ ns. not (one_of ns adapter)) names) ≡ true
    → All (λ ns. In ns adapter) names
select-All [] adapter h = tt
select-All (ns ∷ names) adapter h =
    (one_of-In ns adapter (ground arith), select-All names adapter (ground arith))

-- The file names servers, and the adapter has them all if any are listed for it.
abbrev pub IsCurrent : DnsInfo → Type 0
IsCurrent dns =
    (dns.nameservers ≢ [])
    × ((dns.windows_adapter_dns ≡ []) ⊎ All (λ ns. In ns dns.windows_adapter_dns) dns.nameservers)

abbrev pub IsResolved : Option DnsInfo → Type 0
IsResolved none = ⊥
IsResolved (some dns) =
    (truthy dns.failure ≡ false)
    × (is_incomplete dns ≡ false)
    × ((is_off dns.generate_resolv_conf && is_off dns.is_generated_symlink ≡ false) ⊎ IsCurrent dns)

nil_of : (xs : List Text) → is_empty xs ≡ true → xs ≡ []
nil_of [] h = refl
nil_of (x ∷ xs) h = cc

not_nil : (xs : List Text) → is_empty xs ≡ false → xs ≢ []
not_nil [] h = cc
not_nil (x ∷ xs) h = λ e. cc

no_problems :
    (dns : DnsInfo)
    → is_empty (dns_problems dns) ≡ true
    → (is_off dns.generate_resolv_conf && is_off dns.is_generated_symlink ≡ false) ⊎ IsCurrent dns
unfolding dns_problems
no_problems dns =
    let Q : List Text → Type 0 = λ ps.
      is_empty ps ≡ true
      → (is_off dns.generate_resolv_conf && is_off dns.is_generated_symlink ≡ false)
        ⊎ IsCurrent dns in
    if_elim Q (not (is_off dns.generate_resolv_conf && is_off dns.is_generated_symlink))
      (λ auto h. inl (ground arith))
      (λ manual.
        if_elim Q (is_empty dns.nameservers) (λ e h. cc)
          (λ some_named.
            if_elim Q (is_empty dns.windows_adapter_dns)
              (λ e h.
                inr (not_nil dns.nameservers some_named, inl (nil_of dns.windows_adapter_dns e)))
              (λ _.
                if_elim Q (is_empty (strangers dns))
                  (λ e h. inr (
                    not_nil dns.nameservers some_named,
                    inr (select-All dns.nameservers dns.windows_adapter_dns e),
                  ))
                  (λ e h. cc))))

judge_dns-IsResolved : (dns : DnsInfo) → (judge_dns dns).verdict ≡ healthy → IsResolved (some dns)
unfolding judge_dns
judge_dns-IsResolved dns =
    let Q : DoctorCheckResult → Type 0 = λ c. c.verdict ≡ healthy → IsResolved (some dns) in
    if_elim Q (truthy dns.failure) (λ _ h. cc)
      (λ well.
        if_elim Q (is_incomplete dns) (λ _ h. cc)
          (λ complete.
            if_elim Q (is_empty (dns_problems dns))
              (λ fine h. (well, complete, no_problems dns fine)) (λ _ h. cc)))

judge_resolver-IsResolved :
    (dns : Option DnsInfo) → (judge_resolver dns).verdict ≡ healthy → IsResolved dns
judge_resolver-IsResolved none h = cc
judge_resolver-IsResolved (some dns) h = judge_dns-IsResolved dns h

strangers_none :
    (names adapter : List Text)
    → All (λ ns. In ns adapter) names
    → is_empty (select (λ ns. not (one_of ns adapter)) names) ≡ true
strangers_none [] adapter h = refl
strangers_none (ns ∷ names) adapter (h, k) =
    rw (In-one_of ns adapter h) (strangers_none names adapter k)

no_strangers :
    (dns : DnsInfo)
    → is_empty dns.windows_adapter_dns ≡ false
    → (dns.windows_adapter_dns ≡ []) ⊎ All (λ ns. In ns dns.windows_adapter_dns) dns.nameservers
    → is_empty (strangers dns) ≡ true
no_strangers dns h (inl e) = absurd (not_nil dns.windows_adapter_dns h e)
no_strangers dns h (inr known) = strangers_none dns.nameservers dns.windows_adapter_dns known

without_problems :
    (dns : DnsInfo)
    → (is_off dns.generate_resolv_conf && is_off dns.is_generated_symlink ≡ false) ⊎ IsCurrent dns
    → is_empty (dns_problems dns) ≡ true
unfolding dns_problems
without_problems dns (inl auto) = rw auto refl
without_problems dns (inr (named, known)) =
    let Q : List Text → Type 0 = λ ps. is_empty ps ≡ true in
    if_elim Q (not (is_off dns.generate_resolv_conf && is_off dns.is_generated_symlink)) (λ _. refl)
      (λ _.
        if_elim Q (is_empty dns.nameservers) (λ e. absurd (named (nil_of dns.nameservers e)))
          (λ _.
            if_elim Q (is_empty dns.windows_adapter_dns) (λ _. refl)
              (λ asked.
                if_elim Q (is_empty (strangers dns)) (λ _. refl)
                  (λ e. absurd (true≢false (sym (no_strangers dns asked known) ∙ e))))))

IsResolved-judge_dns : (dns : DnsInfo) → IsResolved (some dns) → (judge_dns dns).verdict ≡ healthy
unfolding judge_dns
IsResolved-judge_dns dns (h, k, l) = rw (h, k, without_problems dns l) refl

IsResolved-judge_resolver :
    (dns : Option DnsInfo) → IsResolved dns → (judge_resolver dns).verdict ≡ healthy
IsResolved-judge_resolver none h = absurd h
IsResolved-judge_resolver (some dns) h = IsResolved-judge_dns dns h

-- The resolver is found healthy exactly when its state was collected whole and without an error, and its
-- file is not known to be written by hand, or else names servers, all of which the Windows adapter has
-- too. An adapter for which no servers are listed counts as agreeing, also when the list is empty
-- because Windows was not asked.
pub check_dns-healthy_iff :
    (dash : DashboardSnapshot) → ((check_dns dash).verdict ≡ healthy) ↔ IsResolved dash.dns
unfolding check_dns
check_dns-healthy_iff dash =
    (judge_resolver-IsResolved dash.dns, IsResolved-judge_resolver dash.dns)

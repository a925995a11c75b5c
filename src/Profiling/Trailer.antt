-- ===== src/Profiling/Trailer.antt =====
-- AttachTrailer of pkg/profiling/grpc.go: what is sent to the client has the duration that was measured.
use cedana.Base.{◌+◌, ◌%◌, ◌^◌, ◌≡◌, refl, ap, ◌∙◌, inl, inr, Bool-cases}
use cedana.Profiling.{
  Data, data_of, Components, none_left, next, info, components, append, is_wrapper, clean,
  clean_all, print_duration, attach_trailer,
}
use cedana.Profiling.Flat.{IsShaded, AllShaded, IsProper, AllProper, flatten_total}

AllShaded-append : (cs ds : Components) → AllShaded cs → AllShaded ds → AllShaded (append cs ds)
unfolding IsShaded
AllShaded-append none_left ds h k = k
AllShaded-append (next c cs) ds h k = (h.0, AllShaded-append cs ds h.1 k)

AllProper-append : (cs ds : Components) → AllProper cs → AllProper ds → AllProper (append cs ds)
unfolding IsProper
AllProper-append none_left ds h k = k
AllProper-append (next c cs) ds h k = (h.0, AllProper-append cs ds h.1 k)

AllShaded-AllProper : (cs : Components) → AllShaded cs → AllProper cs
unfolding IsShaded IsProper
AllShaded-AllProper none_left h = tt
AllShaded-AllProper (next c cs) h = (inl h.0, AllShaded-AllProper cs h.1)

mutual
  unfolding IsShaded clean

  IsShaded-clean : (d : Data) → IsShaded d → IsShaded (clean d)
  IsShaded-clean (data_of i cs) h = (h.0, AllShaded-clean_all cs h.1)

  AllShaded-clean_all : (cs : Components) → AllShaded cs → AllShaded (clean_all cs)
  AllShaded-clean_all none_left h = tt
  AllShaded-clean_all (next (data_of i ds) cs) h = elim (Bool-cases (is_wrapper i)) [
    | inl e ↦ rw e (
        AllShaded-append (clean_all ds) (clean_all cs) (AllShaded-clean_all ds h.0.1)
          (AllShaded-clean_all cs h.1))
    | inr e ↦ rw e ((h.0.0, AllShaded-clean_all ds h.0.1), AllShaded-clean_all cs h.1)
  ]

mutual
  unfolding IsShaded IsProper clean

  IsProper-clean : (d : Data) → IsProper d → IsProper (clean d)
  IsProper-clean (data_of i cs) h = (h.0, AllProper-clean_all cs h.1)

  AllProper-clean_all : (cs : Components) → AllProper cs → AllProper (clean_all cs)
  AllProper-clean_all none_left h = tt
  AllProper-clean_all (next (data_of i ds) cs) h =
      let rest : AllProper (clean_all cs) = AllProper-clean_all cs h.1 in
      elim (Bool-cases (is_wrapper i)) [
        | inl e ↦ rw e (
            AllProper-append (clean_all ds) (clean_all cs)
              (elim h.0 [
                | inl sh ↦ AllShaded-AllProper (clean_all ds) (AllShaded-clean_all ds sh.1)
                | inr (s, pr) ↦ AllProper-clean_all ds pr.1
              ])
              rest)
        | inr e ↦ rw e (
          elim h.0 [
            | inl sh ↦ inl (sh.0, AllShaded-clean_all ds sh.1)
            | inr (s, pr) ↦ inr (s, (pr.0, AllProper-clean_all ds pr.1))
          ],
          rest,
        )
      ]

info-clean : (d : Data) → info (clean d) ≡ info d
unfolding clean
info-clean (data_of i cs) = refl

-- Of a cleaned and flattened tree of timings, the duration that is left with the top and the
-- total that Print shows add up to the duration that was measured, modulo 2^64, where no component
-- counts that is below one which does not (being parallel or redundant). (The durations of the top and
-- of those that count are 64-bit patterns.)
pub attach_trailer_total :
    (d : Data)
    → IsProper d
    → ((info (attach_trailer d)).duration + print_duration 0 (components (attach_trailer d)))
        % 2 ^ 64
      ≡ (info d).duration
unfolding attach_trailer
attach_trailer_total d h =
    flatten_total (clean d) (IsProper-clean d h) ∙ ap (λ i. i.duration) (info-clean d)

-- ===== src/Aggregator/Collection/Expiry.antt =====
-- When a list of timeouts that are added one by one (aggregator.rs) ends in a certificate.
use madara_hotstuff.Base.{
  ◌+◌, ◌*◌, ◌<◌, ◌≤◌, ◌≡◌, ◌∙◌, ap, inl, inr, ◌&&◌, ◌||◌, List, [], ◌∷◌, arith, contains, All,
  length, length-append, any, ltb, ◌==◌, u64_mod,
}
use madara_hotstuff.Primitives.{AuthorityId, AuthorityList, ViewNumber}
use madara_hotstuff.Message.Timeout.{Timeout}
use madara_hotstuff.Aggregator.{Aggregator, new, add_timeout, tc_maker}
use madara_hotstuff.Aggregator.Timeouts.{
  AllTimely, new-AllTimely, add_timeout-AllTimely, voters-append,
}
use madara_hotstuff.Aggregator.Collection.Tally.{counted_before, counted_now, length-eq_of_contains}
use madara_hotstuff.Aggregator.Collection.Timeouts.{
  IsSigned, answers, collect, held, length-held, expires, timed_out, Distinct-timed_out,
  add_timeout_step,
}

module _ (authorities : AuthorityList) (view : ViewNumber) where
  held-collect :
      (a : Aggregator) (timeouts : List Timeout) (id : AuthorityId)
      → AllTimely a
      → All IsSigned timeouts
      → length (tc_maker a view).votes + length timeouts < u64_mod
      → contains (held (tc_maker (collect authorities a timeouts) view)) id
        ≡ (contains (held (tc_maker a view)) id || contains (timed_out view timeouts) id)
  held-collect a [] id h e room = ground arith
  held-collect a (t ∷ timeouts) id h e room =
      let a' = (add_timeout a t authorities).1 in
      elim (add_timeout_step authorities a t view e.0 ((h view).weighed) (omega arith)) [
        | inl (unfit, votes', _) ↦
            let rest =
              held-collect a' timeouts id (add_timeout-AllTimely a t authorities h) e.1
                (omega (arith, ap length votes')) in
            rw votes' at rest
            ∙ counted_before (held (tc_maker a view)) (timed_out view timeouts) (t.view == view)
                t.voter id unfit
        | inr (new_one, (s, votes'), _) ↦
            let rest = held-collect a' timeouts id (add_timeout-AllTimely a t authorities h) e.1 (
              omega (
                arith,
                ap length votes',
                length-append (tc_maker a view).votes ((t.voter, s, t.view) ∷ []),
              )) in
            rw (votes', voters-append (tc_maker a view).votes t.voter s t.view) at rest
            ∙ counted_now (held (tc_maker a view)) (timed_out view timeouts) (t.view == view)
                t.voter id new_one
      ]

  expires-collect :
      (a : Aggregator) (timeouts : List Timeout)
      → AllTimely a
      → All IsSigned timeouts
      → length (tc_maker a view).votes + length timeouts < u64_mod
      → (length (tc_maker a view).votes
          ≤ length (tc_maker (collect authorities a timeouts) view).votes)
        × (any (expires view) (answers authorities a timeouts) ≡ (
            ltb
              (length (tc_maker a view).votes)
              (length (tc_maker (collect authorities a timeouts) view).votes)
            && ltb
                (2 * length authorities)
                (3 * length (tc_maker (collect authorities a timeouts) view).votes)))
  expires-collect a [] h e room = ground arith
  expires-collect a (t ∷ timeouts) h e room =
      let a' = (add_timeout a t authorities).1 in
      elim (add_timeout_step authorities a t view e.0 ((h view).weighed) (omega arith)) [
        | inl (unfit, votes', none_yet) ↦
            let (grown, rest) =
              expires-collect a' timeouts (add_timeout-AllTimely a t authorities h) e.1
                (omega (arith, ap length votes')) in
            (rw votes' at grown, rw none_yet (rw votes' at rest))
        | inr (new_one, (s, votes'), made) ↦
            let longer : length (tc_maker a' view).votes ≡ length (tc_maker a view).votes + 1 =
              omega (
                arith,
                ap length votes',
                length-append (tc_maker a view).votes ((t.voter, s, t.view) ∷ []),
              ) in
            let (grown, rest) =
              expires-collect a' timeouts (add_timeout-AllTimely a t authorities h) e.1
                (omega (arith, longer)) in
            (omega arith, rw made (ground (arith, rest, longer, grown)))
      ]

  collect-AllTimely :
      (a : Aggregator) (timeouts : List Timeout)
      → AllTimely a
      → AllTimely (collect authorities a timeouts)
  collect-AllTimely a [] h = h
  collect-AllTimely a (t ∷ timeouts) h =
      collect-AllTimely (add_timeout a t authorities).1 timeouts
        (add_timeout-AllTimely a t authorities h)

  -- For fewer than 2^64 signed timeouts added one by one to an empty aggregator, some call returns a
  -- certificate of a view exactly if the distinct voters of timeouts of that view are more than two
  -- thirds of the authorities in number.
  pub answers-expires :
      (timeouts : List Timeout)
      → All IsSigned timeouts
      → length timeouts < u64_mod
      → any (expires view) (answers authorities new timeouts)
        ≡ ltb (2 * length authorities) (3 * length (timed_out view timeouts))
  answers-expires timeouts e room =
      let m = tc_maker (collect authorities new timeouts) view in
      let (_, issued) = expires-collect new timeouts new-AllTimely e (omega arith) in
      let total : length (held m) ≡ length (timed_out view timeouts) =
        length-eq_of_contains _ _ (collect-AllTimely new timeouts new-AllTimely view).distinct
          (Distinct-timed_out view timeouts)
          (λ id. held-collect new timeouts id new-AllTimely e (omega arith)) in
      ground (arith, issued, total, length-held m)

-- ===== src/Pipeline/Books/Sealed.antt =====
-- decide.go's packs through every effect: each row of the journal agrees with its own data.
use compliance_gateway.Common.{ℕ, List, Option, All}
use compliance_gateway.Text.{Text}
use compliance_gateway.Pipeline.Books.{
  Books, Effect, records, drafts, approves, Effects, unchanged, step, IsSealed,
}

module _ (sha : List ℕ → Text) (sign : Text → Option Text) where
  Effect-IsSealed :
      {b c : Books}
      → Effect sha sign b c
      → All (IsSealed sha sign) b.packs
      → All (IsSealed sha sign) c.packs
  Effect-IsSealed (records id d k w (n, p, f, z)) h = (z, h)
  Effect-IsSealed (drafts r e a) h = h
  Effect-IsSealed (approves v by sig from r e a) h = h

  pub Effects-IsSealed :
      {b c : Books}
      → Effects sha sign b c
      → All (IsSealed sha sign) b.packs
      → All (IsSealed sha sign) c.packs
  Effects-IsSealed unchanged h = h
  Effects-IsSealed (step e s) h = Effects-IsSealed s (Effect-IsSealed e h)

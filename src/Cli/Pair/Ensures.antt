-- ===== src/Cli/Pair/Ensures.antt =====
-- Rules for what a completed step of the flow of crates/syauth-cli/src/pair.rs ensures.
use syauth.Base.{Bool, true, false, Result, ok, err, if◌then◌else◌, ◌≡◌, refl}
use syauth.Cli.Pair.{PairError}
use syauth.Cli.Pair.Flow.{PairRun, M, after, ◌>>=◌, ◌>>◌, lift}

-- What holds of the value and the state of a completed run.
unfoldable pub Post : {A : Type 0} → (A → PairRun → Type 0) → Result A PairError × PairRun → Type 0
Post Q (ok a, t) = Q a t
Post Q (err e, t) = Unit

unfoldable pub Ensures : {A : Type 0} → M A → (A → PairRun → Type 0) → Type 0
Ensures m Q = (s : PairRun) → Post Q (m s)

pub Post-after :
    {A B : Type 0} (Q : B → PairRun → Type 0) (f : A → M B) (r : Result A PairError × PairRun)
    → ((a : A) → r.0 ≡ ok a → Ensures (f a) Q)
    → Post Q (after f r)
unfolding Post Ensures
Post-after Q f (ok a, t) h = h a refl t
Post-after Q f (err e, t) h = tt

pub Post-seq :
    {A B : Type 0} (P : A → PairRun → Type 0) (Q : B → PairRun → Type 0) (f : A → M B)
    → (r : Result A PairError × PairRun) → Post P r
    → ((a : A) (t : PairRun) → P a t → Post Q (f a t))
    → Post Q (after f r)
unfolding Post
Post-seq P Q f (ok a, t) g h = h a t g
Post-seq P Q f (err e, t) g h = tt

pub ensures_bind :
    {A B : Type 0} (Q : B → PairRun → Type 0) (m : M A) (f : A → M B)
    → ((a : A) → Ensures (f a) Q)
    → Ensures (m >>= f) Q
unfolding Ensures
ensures_bind Q m f h s = Post-after Q f (m s) (λ a _. h a)

pub ensures_seq :
    {A B : Type 0} (P : A → PairRun → Type 0) (Q : B → PairRun → Type 0) (m : M A) (f : A → M B)
    → Ensures m P
    → ((a : A) (t : PairRun) → P a t → Ensures (f a) Q)
    → Ensures (m >>= f) Q
unfolding Ensures
ensures_seq P Q m f g h s = Post-seq P Q f (m s) (g s) (λ a t q. h a t q t)

pub ensures_then :
    {B : Type 0} (Q : B → PairRun → Type 0) (m : M (Unit {0})) (k : M B)
    → Ensures k Q
    → Ensures (m >> k) Q
ensures_then Q m k h = ensures_bind Q m (λ _. k) (λ _. h)

pub ensures_lift :
    {A B : Type 0} (Q : B → PairRun → Type 0) (r : Result A PairError) (f : A → M B)
    → ((a : A) → r ≡ ok a → Ensures (f a) Q)
    → Ensures (lift r >>= f) Q
unfolding Ensures
ensures_lift Q r f h s = Post-after Q f (r, s) h

pub ensures_ok :
    {A : Type 0} (Q : A → PairRun → Type 0) (a : A)
    → ((t : PairRun) → Q a t)
    → Ensures (lift (ok a)) Q
unfolding Post Ensures
ensures_ok Q a h s = h s

pub ensures_err : {A : Type 0} (Q : A → PairRun → Type 0) (e : PairError) → Ensures (lift (err e)) Q
unfolding Post Ensures
ensures_err Q e s = tt

pub ensures_if :
    {A : Type 0} (Q : A → PairRun → Type 0) (b : Bool) (m k : M A)
    → (b ≡ true → Ensures m Q)
    → (b ≡ false → Ensures k Q)
    → Ensures (if b then m else k) Q
ensures_if Q true m k h g = h refl
ensures_if Q false m k h g = g refl

pub Post-weaken :
    {A : Type 0} (P Q : A → PairRun → Type 0) (r : Result A PairError × PairRun)
    → Post P r
    → ((a : A) (t : PairRun) → P a t → Q a t)
    → Post Q r
unfolding Post
Post-weaken P Q (ok a, t) h k = k a t h
Post-weaken P Q (err e, t) h k = tt

pub ensures_weaken :
    {A : Type 0} (P Q : A → PairRun → Type 0) (m : M A)
    → Ensures m P
    → ((a : A) (t : PairRun) → P a t → Q a t)
    → Ensures m Q
unfolding Ensures
ensures_weaken P Q m h k s = Post-weaken P Q (m s) (h s) k

-- ===== src/Kernel/Links/Release.antt =====
-- What the steps on one link do, by the number of its references.
use chos.Prelude.{◌-◌, ◌<◌, ◌^◌, ◌≡◌, ◌≢◌, refl, none, some, Bytes, arith, update}
use chos.Kernel.State.{Ptr, null, Link, State, ok}
use chos.Kernel.Links.{release}

pub release-null : (s : State) → release null s ≡ ok tt s
unfolding release
release-null s = refl

pub release-shared :
    (s : State) (a : Ptr) (l : Link)
    → a ≢ null
    → s.links a ≡ some l
    → 1 < l.count
    → l.count < 2 ^ 32
    → release a s
      ≡ ok tt (record s { links = update s.links a (some (record l { count = l.count - 1 })) })
unfolding release
release-shared s a l ne e h k = ground arith

pub release-last :
    (s : State) (a : Ptr) (l : Link) (t : Bytes)
    → a ≢ null
    → s.links a ≡ some l
    → l.count ≡ 1
    → l.text ≢ null
    → s.texts l.text ≡ some t
    → release a s
      ≡ ok tt (record s {
        links = update (update s.links a (some (record l { count = 0 }))) a none;
        texts = update s.texts l.text none;
      })
unfolding release
release-last s a l t ne e h nt et = ground arith

-- ===== src/KobjMap/Tests.antt =====
-- A map with one wide range, and a narrow one put into it.
use hsunix.Base.{some, none, true, ◌+◌, ◌∷◌, ◌≡◌, [], arith, refl}
use hsunix.KobjMap.{Probe, ProbeMap, kobj_lookup, kobj_map}
use hsunix.KobjMap.Find.{kobj_lookup-kobj_map}

abbrev wide : Probe
wide = record { dev = 0x100000; range = 256; probe = some (λ dev i. some 1); lock = none }

abbrev narrow : Probe
narrow = record { dev = 0x100008; range = 4; probe = some (λ dev i. some (100 + i)); lock = none }

abbrev domain : ProbeMap
domain = record {
  base = record { dev = 1; range = 0xffff; probe = some (λ dev i. none); lock = none };
  chain = wide ∷ [];
}

kobj_lookup-kobj_map_example : kobj_lookup (kobj_map true narrow domain).1 0x10000a ≡ some 102
kobj_lookup-kobj_map_example =
    kobj_lookup-kobj_map narrow domain 0x10000a (λ dev i. some (100 + i)) refl refl (omega arith)
      (omega arith) (omega arith) (omega arith) (omega arith) refl
      ((λ h. absurd (omega (arith, h))), tt)

-- ===== src/Availability/Table.antt =====
-- protocol_availability.go: the outer window of every protocol on every chain, and the chain IDs of
-- types.go.
use sentio_portfolio.Common.{ℕ, List, [], ◌∷◌, ◌++◌}
use sentio_portfolio.Availability.{Window, Table, since_block, available_from_genesis}

abbrev pub ethereum : ℕ
ethereum = 1

abbrev pub bsc : ℕ
bsc = 56

abbrev pub base : ℕ
base = 8453

abbrev pub arbitrum : ℕ
arbitrum = 42161

abbrev pub polygon : ℕ
polygon = 137

abbrev pub monad : ℕ
monad = 143

abbrev pub plasma : ℕ
plasma = 9745

abbrev pub avalanche : ℕ
avalanche = 43114

abbrev pub optimism : ℕ
optimism = 10

abbrev pub hyper_evm : ℕ
hyper_evm = 999

abbrev pub robinhood : ℕ
robinhood = 4663

-- `SupportedChainIDs`
abbrev pub supported_chains : List ℕ
supported_chains =
    ethereum ∷ bsc ∷ base ∷ arbitrum ∷ polygon ∷ monad ∷ plasma ∷ avalanche ∷ optimism ∷ hyper_evm
    ∷ robinhood ∷ []

-- `availableFrom(block)` and `availableFromGenesis()`, as the only window of a chain.
abbrev pub since : ℕ → List Window
since block = since_block block ∷ []

abbrev pub always : List Window
always = available_from_genesis ∷ []

abbrev pub lending_and_staking : Table
lending_and_staking =
    (
      "aave-v3",
      (ethereum, since 16_291_078)
          ∷ (bsc, since 46_367_909)
          ∷ (base, since 25_954_709)
          ∷ (arbitrum, since 302_650_382)
          ∷ (polygon, since 25_826_028)
          ∷ (monad, since 81_909_763)
          ∷ (plasma, since 489_197)
          ∷ (avalanche, since 11_970_506)
          ∷ (optimism, since 4_365_693)
          ∷ [],
    )
    ∷ (
      "aave-v2",
      (ethereum, since 10_927_018)
          ∷ (polygon, since 12_687_302)
          ∷ (avalanche, since 4_607_174)
          ∷ [],
    )
    ∷ (
      "spark",
      (ethereum, since 16_776_391)
          ∷ (base, since 27_123_520)
          ∷ (arbitrum, since 311_940_473)
          ∷ (avalanche, since 69_983_672)
          ∷ (optimism, since 136_322_256)
          ∷ [],
    )
    ∷ ("kinza", (bsc, since 29_232_063) ∷ [])
    ∷ ("seamless", (base, since 3_318_562) ∷ [])
    ∷ ("compound-v2", (ethereum, since 10_271_924) ∷ [])
    ∷ ("moonwell", (base, since 2_162_402) ∷ (optimism, since 122_531_304) ∷ [])
    ∷ ("flux-finance", (ethereum, since 16_520_940) ∷ [])
    ∷ ("sonne", (base, since 2_492_954) ∷ (optimism, since 25_840_175) ∷ [])
    ∷ ("lodestar", (arbitrum, since 111_013_008) ∷ [])
    ∷ (
      "venus",
      (ethereum, since 18_890_246)
          ∷ (bsc, since 2_471_694)
          ∷ (base, since 23_341_263)
          ∷ (arbitrum, since 215_551_349)
          ∷ (optimism, since 126_048_098)
          ∷ [],
    )
    ∷ (
      "compound-v3",
      (ethereum, since 15_331_586)
          ∷ (base, since 2_197_588)
          ∷ (arbitrum, since 87_335_214)
          ∷ (polygon, since 39_412_367)
          ∷ (optimism, since 118_406_276)
          ∷ [],
    )
    ∷ ("fluid-lite", (ethereum, since 16_609_585) ∷ [])
    ∷ ("cap", (ethereum, since 22_874_057) ∷ [])
    ∷ ("ethena", (ethereum, since 18_571_359) ∷ [])
    ∷ ("usdd", (ethereum, since 23_275_147) ∷ (bsc, since 63_887_220) ∷ [])
    ∷ ("unitas", (bsc, since 69_059_010) ∷ [])
    ∷ ("liquid-collective", (ethereum, since 15_676_402) ∷ [])
    ∷ ("lido", (ethereum, since 11_473_216) ∷ [])
    ∷ ("meth-protocol", (ethereum, since 18_290_599) ∷ [])
    ∷ (
      "etherfi",
      (ethereum, since 17_664_324)
          ∷ (bsc, since 38_098_558)
          ∷ (base, since 13_524_685)
          ∷ (arbitrum, since 156_547_814)
          ∷ (optimism, since 120_917_167)
          ∷ [],
    )
    ∷ ("frax-ether", (ethereum, since 15_686_046) ∷ [])
    ∷ (
      "renzo",
      (ethereum, since 18_722_779)
          ∷ (bsc, since 36_596_546)
          ∷ (base, since 12_682_160)
          ∷ (arbitrum, since 185_410_162)
          ∷ [],
    )
    ∷ ("aster", (bsc, since 43_713_424) ∷ [])
    ∷ ("fxprotocol", (ethereum, since 17_818_955) ∷ [])
    ∷ ("rocketpool", (ethereum, since 13_325_532) ∷ [])
    ∷ (
      "stader",
      (ethereum, since 17_416_153) ∷ (bsc, since 19_907_065) ∷ (polygon, since 27_403_468) ∷ [],
    )
    ∷ ("olympus", (ethereum, since 13_803_969) ∷ [])
    ∷ ("fraxlend", (ethereum, since 15_993_000) ∷ [])
    ∷ ("aave-v4", (ethereum, since 24_720_887) ∷ (avalanche, since 89_721_368) ∷ [])
    ∷ ("makerdao", (ethereum, since 10_091_068) ∷ [])
    ∷ []

abbrev pub vaults_and_markets : Table
vaults_and_markets =
    ("sky", (ethereum, since 20_677_434) ∷ [])
    ∷ ("maple", (ethereum, since 16_162_315) ∷ [])
    ∷ ("liquity-v1", (ethereum, since 12_178_557) ∷ [])
    ∷ ("crvusd", (ethereum, since 17_257_955) ∷ [])
    ∷ (
      "curve-lending",
      (ethereum, since 19_422_660)
          ∷ (arbitrum, since 193_652_535)
          ∷ (optimism, since 125_072_267)
          ∷ [],
    )
    ∷ (
      "vesper",
      (ethereum, since 11_407_993)
          ∷ (base, since 15_153_629)
          ∷ (avalanche, since 9_452_892)
          ∷ (optimism, since 75_560_596)
          ∷ [],
    )
    ∷ (
      "yearn-v3",
      (ethereum, since 18_817_046)
          ∷ (base, since 17_834_110)
          ∷ (arbitrum, since 173_129_408)
          ∷ (polygon, since 48_951_031)
          ∷ [],
    )
    ∷ (
      "beefy",
      (ethereum, since 15_982_782)
          ∷ (bsc, since 1_174_856)
          ∷ (base, since 2_572_135)
          ∷ (arbitrum, since 3_005_534)
          ∷ (polygon, since 14_272_076)
          ∷ (monad, since 38_165_449)
          ∷ (plasma, since 2_013_105)
          ∷ (avalanche, since 3_052_900)
          ∷ (optimism, since 17_722_021)
          ∷ [],
    )
    ∷ ("stakewise", (ethereum, since 18_470_152) ∷ [])
    ∷ ("lista", (ethereum, since 23_445_769) ∷ (bsc, since 20_324_823) ∷ [])
    ∷ (
      "euler-v2",
      (ethereum, since 20_529_207)
          ∷ (bsc, since 46_370_645)
          ∷ (base, since 22_282_353)
          ∷ (arbitrum, since 300_690_886)
          ∷ (polygon, since 86_932_963)
          ∷ (monad, since 30_858_592)
          ∷ (plasma, since 511_021)
          ∷ (avalanche, since 56_805_710)
          ∷ [],
    )
    ∷ (
      "morpho-blue",
      (ethereum, since 18_883_124)
          ∷ (bsc, since 54_344_680)
          ∷ (base, since 13_977_148)
          ∷ (arbitrum, since 296_446_593)
          ∷ (polygon, since 66_931_042)
          ∷ (monad, since 31_907_457)
          ∷ (plasma, since 2_919_883)
          ∷ (avalanche, since 75_313_888)
          ∷ (optimism, since 130_770_075)
          ∷ [],
    )
    ∷ (
      "pendle",
      (ethereum, since 16_032_048)
          ∷ (bsc, since 29_484_198)
          ∷ (base, since 22_350_319)
          ∷ (arbitrum, since 62_977_844)
          ∷ (monad, since 75_580_673)
          ∷ (plasma, since 1_887_231)
          ∷ (optimism, since 108_061_318)
          ∷ [],
    )
    ∷ (
      "fluid",
      (ethereum, since 19_245_687)
          ∷ (bsc, since 71_737_128)
          ∷ (base, since 38_678_564)
          ∷ (arbitrum, since 228_709_698)
          ∷ (polygon, since 79_090_648)
          ∷ (plasma, since 8_682_622)
          ∷ [],
    )
    ∷ (
      "uniswap-v3",
      (ethereum, since 12_369_651)
          ∷ (bsc, since 26_324_045)
          ∷ (base, since 1_371_714)
          ∷ (arbitrum, since 173)
          ∷ (polygon, since 22_760_586)
          ∷ (monad, since 29_255_879)
          ∷ (plasma, since 430_178)
          ∷ (avalanche, since 27_833_025)
          ∷ (optimism, always)
          ∷ [],
    )
    ∷ (
      "uniswap-v4",
      (ethereum, since 21_689_089)
          ∷ (bsc, since 45_970_613)
          ∷ (base, since 25_350_993)
          ∷ (arbitrum, since 297_842_893)
          ∷ (polygon, since 66_980_399)
          ∷ (monad, since 29_255_924)
          ∷ (avalanche, since 56_195_389)
          ∷ (optimism, since 130_947_685)
          ∷ [],
    )
    ∷ (
      "wallet",
      (ethereum, always)
          ∷ (bsc, always)
          ∷ (base, always)
          ∷ (arbitrum, always)
          ∷ (polygon, always)
          ∷ (monad, always)
          ∷ (plasma, always)
          ∷ (avalanche, always)
          ∷ (optimism, always)
          ∷ (hyper_evm, always)
          ∷ (robinhood, always)
          ∷ [],
    )
    ∷ []

-- `protocolAvailabilityByID`
abbrev pub protocol_availability : Table
protocol_availability = lending_and_staking ++ vaults_and_markets

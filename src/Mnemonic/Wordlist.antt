-- ===== src/Mnemonic/Wordlist.antt =====
-- `WORDLIST` of wallet/mnemonic/wordlists.py, row by row.
use Prim.Native.String.{String}
use mathlib.Core.List.{List, ◌++◌}
use piso_chain.Base.{Text}
use piso_chain.Text.{codes, split_on}

abbrev row : String → List Text
row words = split_on b' ' (codes words)

unfoldable pub wordlist : List Text
unfolding split_on
wordlist =
    row "abandon ability able about above absent absorb abstract absurd abuse"
    ++ row "access accident account accuse achieve acid acoustic acquire across act"
    ++ row "action actor actress actual adapt add addict address adjust admit"
    ++ row "adult advance advice aerobic afford afraid again age agent agree"
    ++ row "ahead aim air airport aisle alarm album alcohol alert alien"
    ++ row "all alley allow almost alone alpha already also alter always"
    ++ row "amateur amazing among amount amused analyst anchor ancient anger angle"
    ++ row "angry animal ankle announce annual another answer antenna antique anxiety"
    ++ row "any apart apology appear apple approve april arch arctic area"
    ++ row "arena argue arm armed armor army around arrange arrest arrive"
    ++ row "arrow art artefact artist artwork ask aspect assault asset assist"
    ++ row "assume asthma athlete atom attack attend attitude attract auction audit"
    ++ row "august aunt author auto autumn average avocado avoid awake aware"
    ++ row "away awesome awful awkward axis baby bachelor bacon badge bag"
    ++ row "balance balcony ball bamboo banana banner bar barely bargain barrel"
    ++ row "base basic basket battle beach bean beauty because become beef"
    ++ row "before begin behave behind believe below belt bench benefit best"
    ++ row "betray better between beyond bicycle bid bike bind biology bird"
    ++ row "birth bitter black blade blame blanket blast bleak bless blind"
    ++ row "blood blossom blouse blue blur blush board boat body boil"
    ++ row "bomb bone bonus book boost border boring borrow boss bottom"
    ++ row "bounce box boy bracket brain brand brass brave bread breeze"
    ++ row "brick bridge brief bright bring brisk broccoli broken bronze broom"
    ++ row "brother brown brush bubble buddy budget buffalo build bulb bulk"
    ++ row "bullet bundle bunker burden burger burst bus business busy butter"
    ++ row "buyer buzz cabbage cabin cable cactus cage cake call calm"
    ++ row "camera camp can canal cancel candy cannon canoe canvas canyon"
    ++ row "capable capital captain car carbon card cargo carpet carry cart"
    ++ row "case cash casino castle casual cat catalog catch category cattle"
    ++ row "caught cause caution cave ceiling celery cement census century cereal"
    ++ row "certain chair chalk champion change chaos chapter charge chase chat"
    ++ row "cheap check cheese chef cherry chest chicken chief child chimney"
    ++ row "choice choose chronic chuckle chunk churn cigar cinnamon circle citizen"
    ++ row "city civil claim clap clarify claw clay clean clerk clever"
    ++ row "click client cliff climb clinic clip clock clog close cloth"
    ++ row "cloud clown club clump cluster clutch coach coal coast coconut"
    ++ row "code coffee coil coin collect color column combine come comfort"
    ++ row "comic common company concert conduct confirm congress connect consider control"
    ++ row "convince cook cool copper copy coral core corn correct cost"
    ++ row "cotton couch country couple course cousin cover coyote crack cradle"
    ++ row "craft cram crane crash crater crawl crazy cream credit creek"
    ++ row "crew cricket crime crisp critic crop cross crouch crowd crucial"
    ++ row "cruel cruise crumble crunch crush cry crystal cube culture cup"
    ++ row "cupboard curious current curtain curve cushion custom cute cycle dad"
    ++ row "damage damp dance danger daring dash daughter dawn day deal"
    ++ row "debate debris decade december decide decline decor decrease deer defense"
    ++ row "define defy degree delay deliver demand demise denial dentist deny"
    ++ row "depart depend deposit depth deputy derive describe desert design desk"
    ++ row "despair destroy detail detect develop device devote diagram dial diamond"
    ++ row "diary dice diesel diet differ digital dignity dilemma dinner dinosaur"
    ++ row "direct dirt disagree discover disease dish dismiss disorder display distance"
    ++ row "divert divide divorce dizzy doctor document dog doll dolphin domain"
    ++ row "donate donkey donor door dose double dove draft dragon drama"
    ++ row "drastic draw dream dress drift drill drink drip drive drop"
    ++ row "drum dry duck dumb dune during dust dutch duty dwarf"
    ++ row "dynamic eager eagle early earn earth easily east easy echo"
    ++ row "ecology economy edge edit educate effort egg eight either elbow"
    ++ row "elder electric elegant element elephant elevator elite else embark embody"
    ++ row "embrace emerge emotion employ empower empty enable enact end endless"
    ++ row "endorse enemy energy enforce engage engine enhance enjoy enlist enough"
    ++ row "enrich enroll ensure enter entire entry envelope episode equal equip"
    ++ row "era erase erode erosion error erupt escape essay essence estate"
    ++ row "eternal ethics evidence evil evoke evolve exact example excess exchange"
    ++ row "excite exclude excuse execute exercise exhaust exhibit exile exist exit"
    ++ row "exotic expand expect expire explain expose express extend extra eye"
    ++ row "eyebrow fabric face faculty fade faint faith fall false fame"
    ++ row "family famous fan fancy fantasy farm fashion fat fatal father"
    ++ row "fatigue fault favorite feature february federal fee feed feel female"
    ++ row "fence festival fetch fever few fiber fiction field figure file"
    ++ row "film filter final find fine finger finish fire firm first"
    ++ row "fiscal fish fit fitness fix flag flame flash flat flavor"
    ++ row "flee flight flip float flock floor flower fluid flush fly"
    ++ row "foam focus fog foil fold follow food foot force forest"
    ++ row "forget fork fortune forum forward fossil foster found fox fragile"
    ++ row "frame frequent fresh friend fringe frog front frost frown frozen"
    ++ row "fruit fuel fun funny furnace fury future gadget gain galaxy"
    ++ row "gallery game gap garage garbage garden garlic garment gas gasp"
    ++ row "gate gather gauge gaze general genius genre gentle genuine gesture"
    ++ row "ghost giant gift giggle ginger giraffe girl give glad glance"
    ++ row "glare glass glide glimpse globe gloom glory glove glow glue"
    ++ row "goat goddess gold good goose gorilla gospel gossip govern gown"
    ++ row "grab grace grain grant grape grass gravity great green grid"
    ++ row "grief grit grocery group grow grunt guard guess guide guilt"
    ++ row "guitar gun gym habit hair half hammer hamster hand happy"
    ++ row "harbor hard harsh harvest hat have hawk hazard head health"
    ++ row "heart heavy hedgehog height hello helmet help hen hero hidden"
    ++ row "high hill hint hip hire history hobby hockey hold hole"
    ++ row "holiday hollow home honey hood hope horn horror horse hospital"
    ++ row "host hotel hour hover hub huge human humble humor hundred"
    ++ row "hungry hunt hurdle hurry hurt husband hybrid ice icon idea"
    ++ row "identify idle ignore ill illegal illness image imitate immense immune"
    ++ row "impact impose improve impulse inch include income increase index indicate"
    ++ row "indoor industry infant inflict inform inhale inherit initial inject injury"
    ++ row "inmate inner innocent input inquiry insane insect inside inspire install"
    ++ row "intact interest into invest invite involve iron island isolate issue"
    ++ row "item ivory jacket jaguar jar jazz jealous jeans jelly jewel"
    ++ row "job join joke journey joy judge juice jump jungle junior"
    ++ row "junk just kangaroo keen keep ketchup key kick kid kidney"
    ++ row "kind kingdom kiss kit kitchen kite kitten kiwi knee knife"
    ++ row "knock know lab label labor ladder lady lake lamp language"
    ++ row "laptop large later latin laugh laundry lava law lawn lawsuit"
    ++ row "layer lazy leader leaf learn leave lecture left leg legal"
    ++ row "legend leisure lemon lend length lens leopard lesson letter level"
    ++ row "liar liberty library license life lift light like limb limit"
    ++ row "link lion liquid list little live lizard load loan lobster"
    ++ row "local lock logic lonely long loop lottery loud lounge love"
    ++ row "loyal lucky luggage lumber lunar lunch luxury lyrics machine mad"
    ++ row "magic magnet maid mail main major make mammal man manage"
    ++ row "mandate mango mansion manual maple marble march margin marine market"
    ++ row "marry mask mass master match material math matrix matter maximum"
    ++ row "maze meadow mean measure meat mechanic medal media melody melon"
    ++ row "melt member memory mention menu mercy merge merit merry mesh"
    ++ row "message metal method middle midnight milk million mimic mind minimum"
    ++ row "minor minute miracle mirror misery miss mistake mix mixed mixture"
    ++ row "mobile model modify mom moment monitor monkey monster month moon"
    ++ row "moral more morning mosquito mother motion motor mountain mouse move"
    ++ row "movie much muffin mule multiply muscle museum mushroom music must"
    ++ row "mutual myself mystery myth naive name napkin narrow nasty nation"
    ++ row "nature near neck need negative neglect neither nephew nerve nest"
    ++ row "net network neutral never news next nice night noble noise"
    ++ row "nominee noodle normal north nose notable note nothing notice novel"
    ++ row "now nuclear number nurse nut oak obey object oblige obscure"
    ++ row "observe obtain obvious occur ocean october odor off offer office"
    ++ row "often oil okay old olive olympic omit once one onion"
    ++ row "online only open opera opinion oppose option orange orbit orchard"
    ++ row "order ordinary organ orient original orphan ostrich other outdoor outer"
    ++ row "output outside oval oven over own owner oxygen oyster ozone"
    ++ row "pact paddle page pair palace palm panda panel panic panther"
    ++ row "paper parade parent park parrot party pass patch path patient"
    ++ row "patrol pattern pause pave payment peace peanut pear peasant pelican"
    ++ row "pen penalty pencil people pepper perfect permit person pet phone"
    ++ row "photo phrase physical piano picnic picture piece pig pigeon pill"
    ++ row "pilot pink pioneer pipe pistol pitch pizza place planet plastic"
    ++ row "plate play please pledge pluck plug plunge poem poet point"
    ++ row "polar pole police pond pony pool popular portion position possible"
    ++ row "post potato pottery poverty powder power practice praise predict prefer"
    ++ row "prepare present pretty prevent price pride primary print priority prison"
    ++ row "private prize problem process produce profit program project promote proof"
    ++ row "property prosper protect proud provide public pudding pull pulp pulse"
    ++ row "puma punch pupil puppy purchase purity purpose purse push put"
    ++ row "puzzle pyramid quality quantum quarter question quick quit quiz quote"
    ++ row "rabbit raccoon race rack radar radio rail rain raise rally"
    ++ row "ramp ranch random range rapid rare rate rather raven raw"
    ++ row "razor ready real reason rebel rebuild recall receive recipe record"
    ++ row "recycle reduce reflect reform refuse region regret regular reject relax"
    ++ row "release relief rely remain remember remind remove render renew rent"
    ++ row "reopen repair repeat replace report require rescue resemble resist resource"
    ++ row "response result retire retreat return reunion reveal review reward rhythm"
    ++ row "rib ribbon rice rich ride ridge rifle right rigid ring"
    ++ row "riot ripple risk ritual rival river road roast robot robust"
    ++ row "rocket romance roof rookie room rose rotate rough round route"
    ++ row "royal rubber rude rug rule run runway rural sad saddle"
    ++ row "sadness safe sail salad salmon salon salt salute same sample"
    ++ row "sand satisfy satoshi sauce sausage save say scale scan scare"
    ++ row "scatter scene scheme school science scissors scorpion scout scrap screen"
    ++ row "script scrub sea search season seat second secret section security"
    ++ row "seed seek segment select sell seminar senior sense sentence series"
    ++ row "service session settle setup seven shadow shaft shallow share shed"
    ++ row "shell sheriff shield shift shine ship shiver shock shoe shoot"
    ++ row "shop short shoulder shove shrimp shrug shuffle shy sibling sick"
    ++ row "side siegel sight sign silent silk silly silver similar simple"
    ++ row "since sing siren sister situate six size skate sketch ski"
    ++ row "skill skin skirt skull slab slam sleep slender slice slide"
    ++ row "slight slim slogan slot slow slush small smart smile smoke"
    ++ row "smooth snack snake snap sniff snow soap soccer social sock"
    ++ row "soda soft solar soldier solid solution solve someone song soon"
    ++ row "sorry sort soul sound soup source south space spare spatial"
    ++ row "spawn speak special speed spell spend sphere spice spider spike"
    ++ row "spin spirit split spoil sponsor spoon sport spot spray spread"
    ++ row "spring spy square squeeze squirrel stable stadium staff stage stairs"
    ++ row "stamp stand start state stay steak steel stem step stereo"
    ++ row "stick still sting stock stomach stone stool story stove strategy"
    ++ row "street strike strong struggle student stuff stumble style subject submit"
    ++ row "subway success such sudden suffer sugar suggest suit summer sun"
    ++ row "sunny sunset super supply supreme sure surface surge surprise surround"
    ++ row "survey suspect sustain swallow swamp swap swarm swear sweet swift"
    ++ row "swim swing switch sword symbol symptom syrup system table tackle"
    ++ row "tag tail talent talk tank tape target task taste tattoo"
    ++ row "taxi teach team tell ten tenant tennis tent term test"
    ++ row "text thank that theme then theory there they thing this"
    ++ row "thought three thrive throw thumb thunder ticket tide tiger tilt"
    ++ row "timber time tiny tip tired tissue title toast tobacco today"
    ++ row "toddler toe together toilet token tomato tomorrow tone tongue tonight"
    ++ row "tool tooth top topic topple torch tornado tortoise toss total"
    ++ row "tourist toward tower town toy track trade traffic tragic train"
    ++ row "transfer trap trash travel tray treat tree trend trial tribe"
    ++ row "trick trigger trim trip trophy trouble truck true truly trumpet"
    ++ row "trust truth try tube tuition tumble tuna tunnel turkey turn"
    ++ row "turtle twelve twenty twice twin twist two type typical ugly"
    ++ row "umbrella unable unaware uncle uncover under undo unfair unfold unhappy"
    ++ row "uniform unique unit universe unknown unlock until unusual unveil update"
    ++ row "upgrade uphold upon upper upset urban urge usage use used"
    ++ row "useful useless usual utility vacant vacuum vague valid valley valve"
    ++ row "van vanish vapor various vast vault vehicle velvet vendor venture"
    ++ row "venue verb verify version very vessel veteran viable vibrant vicious"
    ++ row "victory video view village vintage violin virtual virus visa visit"
    ++ row "visual vital vivid vocal voice void volcano volume vote voyage"
    ++ row "wage wagon wait walk wall walnut want warfare warm warrior"
    ++ row "wash wasp waste water wave way wealth weapon wear weasel"
    ++ row "weather web wedding weekend weird welcome west wet whale what"
    ++ row "wheat wheel when where whip whisper wide width wife wild"
    ++ row "will win window wine wing wink winner winter wire wisdom"
    ++ row "wise wish witness wolf woman wonder wood wool word work"
    ++ row "world worry worth wrap wreck wrestle wrist write wrong yard"
    ++ row "year yellow you young youth zebra zero zone zoo"

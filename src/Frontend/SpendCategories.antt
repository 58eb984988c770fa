-- ===== src/Frontend/SpendCategories.antt =====
-- frontend/src/lib/domain/contracts.ts: the names of `spendCategories`.
use personal_carbon_footprin.Prelude.{String, List, [], ◌∷◌}

unfoldable pub spend_categories : List String
spend_categories =
    "Rice" ∷ "WheatBarleyAndTheLike" ∷ "PotatoesAndSweetPotatoes" ∷ "Pulses" ∷ "Vegetables"
    ∷ "Fruits" ∷ "SugarCrops" ∷ "CropsForBeverages" ∷ "MiscellaneousEdibleCrops"
    ∷ "FeedAndForageCrops" ∷ "SeedsAndSeedlings" ∷ "FlowersAndPlants" ∷ "MiscellaneousInedibleCrops"
    ∷ "DairyCattleFarming" ∷ "BeefCattle" ∷ "Hogs" ∷ "HenEggs" ∷ "Chickens"
    ∷ "MiscellaneousLivestock" ∷ "AgriculturalServices" ∷ "Silviculture" ∷ "Logs"
    ∷ "SpecialForestProductsIncludingHunting" ∷ "MarineFishery" ∷ "MarineAquaculture"
    ∷ "InlandWaterFisheryAndInlandWaterAquaculture" ∷ "CoalMiningCrudePetroleumAndNaturalGas"
    ∷ "GravelAndQuarrying" ∷ "MiscellaneousOres" ∷ "Meat" ∷ "DairyFarmProducts"
    ∷ "MiscellaneousLivestockProducts" ∷ "FrozenFishAndShellfish" ∷ "SaltedDriedOrSmokedSeafood"
    ∷ "BottledOrCannedSeafood" ∷ "FishPaste" ∷ "MiscellaneousProcessedSeafood" ∷ "GrainMilling"
    ∷ "FlourAndMiscellaneousGrainMilledProducts" ∷ "Noodles" ∷ "Bread" ∷ "Confectionery"
    ∷ "PreservedAgriculturalFoodstuffs" ∷ "Sugar" ∷ "Starch" ∷ "DextroseSyrupAndIsomerizedSugar"
    ∷ "AnimalOilAndFatsVegetableOilAndMeal" ∷ "CondimentsAndSeasonings" ∷ "PreparedFrozenFoods"
    ∷ "RetortFoods" ∷ "DishesSushiAndLunchBoxes" ∷ "MiscellaneousFoods" ∷ "RefinedSake"
    ∷ "MaltLiquors" ∷ "WhiskeyAndBrandy" ∷ "MiscellaneousLiquors" ∷ "TeaAndRoastedCoffee"
    ∷ "SoftDrinks" ∷ "ManufacturedIce" ∷ "Feeds" ∷ "OrganicFertilizersNEC" ∷ "Tobacco"
    ∷ "FiberYarns" ∷ "CottonAndStapleFiberFabricsIncludingFabricsOfSyntheticSpunFibers"
    ∷ "SilkAndArtificialSilkFabricsIncludingFabricsOfSyntheticFilamentFibers"
    ∷ "MiscellaneousFabrics" ∷ "KnittingFabrics"
    ∷ "YarnAndFabricDyeingAndFinishingProcessingOnCommissionOnly"
    ∷ "MiscellaneousFabricatedTextileProducts" ∷ "WovenFabricApparel" ∷ "KnittedApparel"
    ∷ "MiscellaneousWearingApparelAndClothingAccessories" ∷ "Bedding" ∷ "CarpetsAndFloorMats"
    ∷ "MiscellaneousReadyMadeTextileProducts" ∷ "Timber" ∷ "PlywoodGluedLaminatedTimber"
    ∷ "WoodenChips" ∷ "MiscellaneousWoodenProducts" ∷ "WoodenFurniture" ∷ "MetallicFurniture"
    ∷ "WoodenFixtures" ∷ "MiscellaneousFurnitureAndFixtures" ∷ "Pulp" ∷ "Paper" ∷ "Paperboard"
    ∷ "CorrugatedCardboard" ∷ "CoatedPaperAndBuildingConstructionPaper" ∷ "CorrugatedCardBoardBoxes"
    ∷ "MiscellaneousPaperContainers" ∷ "PaperTextileForMedicalUse"
    ∷ "MiscellaneousPulpPaperAndProcessedPaperProducts" ∷ "PrintingPlateMakingAndBookBinding"
    ∷ "ChemicalFertilizer" ∷ "IndustrialSodaChemicals" ∷ "InorganicPigment"
    ∷ "CompressedGasAndLiquefiedGas" ∷ "Salt" ∷ "MiscellaneousIndustrialInorganicChemicals"
    ∷ "PetrochemicalBasicProducts" ∷ "PetrochemicalAromaticProductsExceptSyntheticResin"
    ∷ "AliphaticIntermediates" ∷ "CyclicIntermediatesSyntheticDyesAndOrganicPigments"
    ∷ "SyntheticRubber" ∷ "MethaneDerivatives" ∷ "Plasticizers"
    ∷ "MiscellaneousIndustrialOrganicChemicals" ∷ "ThermoSettingResins" ∷ "ThermoplasticsResins"
    ∷ "HighFunctionResins" ∷ "MiscellaneousSyntheticResins" ∷ "ChemicalFibers" ∷ "Medicines"
    ∷ "OilAndFatProductsAndSurfaceActiveAgents" ∷ "CosmeticsToiletPreparationsAndDentifrices"
    ∷ "PaintAndVarnishes" ∷ "PrintingInk" ∷ "AgriculturalChemicals" ∷ "GelatinAndAdhesives"
    ∷ "PhotographicSensitiveMaterials" ∷ "MiscellaneousFinalChemicalProducts"
    ∷ "PetroleumRefineryProductsIncludingGreases" ∷ "CoalProducts" ∷ "PavingMaterials"
    ∷ "PlasticProducts" ∷ "TiresAndInnerTubes" ∷ "MiscellaneousRubberProducts" ∷ "LeatherFootwear"
    ∷ "LeatherTanningLeatherProductsAndFurSkinsExceptLeatherFootwear" ∷ "SheetGlassAndSafetyGlass"
    ∷ "GlassFiberAndGlassFiberProductsNEC" ∷ "MiscellaneousGlassProducts" ∷ "Cement"
    ∷ "ReadyMixedConcrete" ∷ "CementProducts" ∷ "PotteryChinaAndEarthenware" ∷ "ClayRefractories"
    ∷ "MiscellaneousStructuralClayProducts" ∷ "CarbonAndGraphiteProducts" ∷ "AbrasiveAndItsProducts"
    ∷ "MiscellaneousCeramicStoneAndClayProducts" ∷ "PigIron" ∷ "FerroAlloys"
    ∷ "CrudeSteelConverters" ∷ "CrudeSteelElectricFurnaces" ∷ "ScrapIron" ∷ "HotRolledSteel"
    ∷ "SteelPipesAndTubes" ∷ "ColdFinishedSteel" ∷ "CoatedSteel" ∷ "CastAndForgedSteel"
    ∷ "CastIronPipesAndTubes" ∷ "CastAndForgedMaterialsIron" ∷ "IronAndSteelShearingAndSlitting"
    ∷ "MiscellaneousIronOrSteelProducts" ∷ "Copper" ∷ "LeadAndZincIncludingRegeneratedLead"
    ∷ "AluminumIncludingRegeneratedAluminum" ∷ "MiscellaneousNonFerrousMetals"
    ∷ "NonFerrousMetalScrap" ∷ "ElectricWiresAndCables" ∷ "OpticalFiberCables"
    ∷ "RolledAndDrawnCopperAndCopperAlloys" ∷ "RolledAndDrawnAluminum"
    ∷ "NonFerrousMetalCastingsAndForgings" ∷ "NuclearFuels" ∷ "MiscellaneousNonFerrousMetalProducts"
    ∷ "FabricatedConstructionUseMetalProducts" ∷ "FabricatedArchitecturalMetalProducts"
    ∷ "GasAndOilAppliancesHeatingAndCookingApparatus" ∷ "BoltsNutsRivetsAndSprings"
    ∷ "MetalContainersFabricatedPlateAndSheetMetal"
    ∷ "PlumbingAccessoriesPowderMetallurgyProductsAndTools" ∷ "MiscellaneousMetalProducts"
    ∷ "Boilers" ∷ "Turbines" ∷ "Engines" ∷ "PumpsAndCompressors" ∷ "Conveyors"
    ∷ "RefrigeratorsAndAirConditioningApparatus" ∷ "Bearings"
    ∷ "MiscellaneousGeneralPurposeMachinery" ∷ "MachineryForAgriculturalUse"
    ∷ "MachineryAndEquipmentForConstructionAndMining" ∷ "TextileMachinery"
    ∷ "DailyLivesIndustryMachinery" ∷ "ChemicalMachinery"
    ∷ "CastingEquipmentAndPlasticProcessingMachinery" ∷ "MetalMachineTools"
    ∷ "MetalProcessingMachinery" ∷ "MachinistsPrecisionTools" ∷ "SemiconductorMakingEquipment"
    ∷ "MetalMolds" ∷ "VacuumEquipmentAndVacuumComponent" ∷ "Robots"
    ∷ "MiscellaneousProductionMachinery" ∷ "CopyMachine" ∷ "MiscellaneousOfficeMachines"
    ∷ "ServiceIndustryAndAmusementMachines" ∷ "MeasuringInstruments" ∷ "MedicalInstruments"
    ∷ "OpticalInstrumentsAndLenses" ∷ "Ordnance" ∷ "SemiconductorDevices" ∷ "IntegratedCircuits"
    ∷ "LiquidCrystalPanel" ∷ "FlatPanelAndElectronTubes" ∷ "StorageMedia" ∷ "ElectricCircuit"
    ∷ "MiscellaneousElectronicComponents" ∷ "RotatingElectricalEquipment"
    ∷ "TransformersAndReactors" ∷ "RelaySwitchesAndSwitchboards" ∷ "WiringDevicesAndSupplies"
    ∷ "ElectricalEquipmentForInternalCombustionEngines" ∷ "MiscellaneousElectricalDevicesAndParts"
    ∷ "HouseholdAirConditioners" ∷ "HouseholdElectricAppliancesExceptAirConditioners"
    ∷ "AppliedElectronicEquipment" ∷ "ElectricMeasuringInstruments" ∷ "ElectricBulbs"
    ∷ "ElectricLightingFixturesAndApparatus" ∷ "Batteries" ∷ "WiredCommunicationEquipment"
    ∷ "MobilePhone" ∷ "RadioCommunicationEquipmentExceptMobilePhone" ∷ "RadioAndTelevisionSets"
    ∷ "MiscellaneousCommunicationEquipment" ∷ "VideoEquipmentAndDigitalCamera"
    ∷ "ElectricAudioEquipment" ∷ "PersonalComputers"
    ∷ "ElectronicComputingEquipmentExceptPersonalComputers"
    ∷ "ElectronicComputingEquipmentAccessoryEquipment" ∷ "PassengerMotorCarsHybridCars"
    ∷ "PassengerMotorCarsExceptHybridCars" ∷ "TrucksBusesAndMiscellaneousCars"
    ∷ "TwoWheelMotorVehicles" ∷ "InternalCombustionEnginesForMotorVehicles"
    ∷ "MotorVehiclePartsAndAccessories" ∷ "SteelShips" ∷ "MiscellaneousShipsExceptSteelShips"
    ∷ "InternalCombustionEnginesForVessels" ∷ "RepairOfShips" ∷ "RollingStock"
    ∷ "RepairOfRollingStock" ∷ "Aircrafts" ∷ "RepairOfAircrafts" ∷ "Bicycles"
    ∷ "MiscellaneousTransportEquipment" ∷ "ToysAndGames" ∷ "SportingAndAthleticGoods"
    ∷ "JewelryAndAdornments" ∷ "WatchesAndClocks" ∷ "MusicalInstruments" ∷ "Stationery"
    ∷ "TatamiStrawMattingAndStrawProducts" ∷ "AudioAndVideoRecordsOtherInformationRecordingMedia"
    ∷ "MiscellaneousManufacturingProducts" ∷ "ReuseAndRecycling" ∷ "ResidentialConstructionWooden"
    ∷ "ResidentialConstructionNonWooden" ∷ "NonResidentialConstructionWooden"
    ∷ "NonResidentialConstructionNonWooden" ∷ "RepairOfConstruction" ∷ "PublicConstructionOfRoads"
    ∷ "PublicConstructionOfRiversDrainagesAndMiscellaneousPublicConstruction"
    ∷ "AgriculturalPublicConstruction" ∷ "RailwayConstruction"
    ∷ "ElectricPowerFacilitiesConstruction" ∷ "TelecommunicationFacilitiesConstruction"
    ∷ "MiscellaneousCivilEngineeringAndConstruction" ∷ "Electricity" ∷ "GasSupply"
    ∷ "SteamAndHotWaterSupply" ∷ "WaterSupply" ∷ "IndustrialWaterSupply" ∷ "SewageDisposal"
    ∷ "WasteManagementServicesPublicCorporation" ∷ "WasteManagementServices" ∷ "WholesaleTrade"
    ∷ "RetailTrade" ∷ "FinancialService" ∷ "LifeInsurance" ∷ "NonLifeInsurance"
    ∷ "RealEstateAgenciesAndManagers" ∷ "RealEstateRentalService" ∷ "HouseRent"
    ∷ "HouseRentImputedHouseRent" ∷ "RailwayTransportPassengers" ∷ "RailwayTransportFreight"
    ∷ "BusTransportService" ∷ "HiredCarAndTaxiTransport" ∷ "RoadFreightTransportExceptSelfTransport"
    ∷ "SelfTransportPassengers" ∷ "SelfTransportFreight" ∷ "InternationalShipping"
    ∷ "CoastalAndInlandWaterTransport" ∷ "HarborTransportService" ∷ "AirTransport"
    ∷ "ConsignedFreightForwarding" ∷ "StorageFacilityService" ∷ "PackingService"
    ∷ "FacilityServiceForRoadTransport" ∷ "PortAndWaterTrafficControlPublicCorporation"
    ∷ "PortAndWaterTrafficControl" ∷ "ServicesRelatingToWaterTransport"
    ∷ "AirportAndAirTrafficControlPublicCorporation" ∷ "AirportAndAirTrafficControl"
    ∷ "ServicesRelatingToAirTransport" ∷ "TravelAgencyAndMiscellaneousServicesRelatingToTransport"
    ∷ "PostalServicesAndMailDelivery" ∷ "FixedTelecommunications" ∷ "MobileTelecommunications"
    ∷ "ServicesRelatingToTelecommunications" ∷ "PublicBroadcasting" ∷ "PrivateBroadcasting"
    ∷ "CableBroadcasting" ∷ "InformationServices" ∷ "InternetBasedServices"
    ∷ "VideoPictureSoundInformationCharacterInformationProductionExceptNewspaperOrPublication"
    ∷ "Newspaper" ∷ "Publication" ∷ "PublicAdministrationCentralGovernment"
    ∷ "PublicAdministrationLocalGovernment" ∷ "SchoolEducationPublicInstitution"
    ∷ "SchoolEducationNpi" ∷ "SchoolLunchPublicInstitution" ∷ "SchoolLunchNpi"
    ∷ "SocialEducationPublicInstitution" ∷ "SocialEducationNpi"
    ∷ "MiscellaneousEducationalAndTrainingInstitutionsPublicInstitution"
    ∷ "MiscellaneousEducationalAndTrainingInstitutions"
    ∷ "ResearchInstitutesForNaturalSciencePublicInstitution"
    ∷ "ResearchInstitutesForCulturalAndSocialSciencePublicInstitution"
    ∷ "ResearchInstitutesForNaturalSciencesNpi" ∷ "ResearchInstitutesForCulturalAndSocialScienceNpi"
    ∷ "ResearchInstitutesForNaturalSciences" ∷ "ResearchInstitutesForCulturalAndSocialScience"
    ∷ "ResearchAndDevelopmentIntraEnterprise" ∷ "MedicalServiceGeneralHospitals"
    ∷ "MedicalServiceClinicsOfMedicalPractitioners" ∷ "MedicalServiceDentistry"
    ∷ "MedicalServicePharmacies" ∷ "MedicalServiceMiscellaneousMedicalService"
    ∷ "HealthAndHygienePublicInstitution" ∷ "HealthAndHygiene" ∷ "SocialInsurance"
    ∷ "SocialWelfarePublicInstitution" ∷ "SocialWelfareNpi" ∷ "SocialWelfare" ∷ "Nursery"
    ∷ "NursingCareFacilityServices" ∷ "NursingCareExceptFacilityServices"
    ∷ "MembershipBasedBusinessAssociations" ∷ "PrivateNonProfitInstitutionsServingHouseholdsNEC"
    ∷ "GoodsRentalAndLeasingExceptCarRental" ∷ "CarRentalAndLeasing" ∷ "AdvertisingServices"
    ∷ "MotorVehicleMaintenanceServices" ∷ "MachineRepairServices"
    ∷ "JudicialFinancialAndAccountingServices" ∷ "CivilEngineeringAndConstructionServices"
    ∷ "WorkerDispatchingServices" ∷ "BuildingMaintenanceServices" ∷ "GuardServices"
    ∷ "SlaughterhousePublicCorporation" ∷ "Slaughterhouse" ∷ "MiscellaneousBusinessServices"
    ∷ "Accommodations" ∷ "EatingAndDrinkingPlaces" ∷ "FoodTakeOutAndDeliveryServices" ∷ "Laundries"
    ∷ "BarberShops" ∷ "HairDressingAndBeautySalon" ∷ "Bathhouses"
    ∷ "MiscellaneousLaundryBeautyAndBathService" ∷ "Cinemas"
    ∷ "PerformancesExceptMovieTheatersTheatricalComranies"
    ∷ "StadiumsAndCompaniesOfBicycleHorseMotorcarAndMotorboatRaces"
    ∷ "SportFacilityServicePublicGardensAndAmusementParks"
    ∷ "AmusementAndRecreationFacilitiesAndServices" ∷ "VeterinaryService" ∷ "PhotographicStudios"
    ∷ "CeremonialOccasions"
    ∷ "SupplementaryTutorialSchoolsInstructionServicesForArtsCultureAndTechnicalSkills"
    ∷ "MiscellaneousRepairsNEC" ∷ "MiscellaneousPersonalServices" ∷ "OfficeSupplies"
    ∷ "ActivitiesNotElsewhereClassified" ∷ []
